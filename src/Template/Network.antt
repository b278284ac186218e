-- ===== src/Template/Network.antt =====
-- pkg/agent/baker.go, `getContainerServiceFuncMap`: the network, the search domain and the
-- registry.
pub mod SearchDomain
use agent_baker.Prelude.{Bool, true, false, not, ◌&&◌, [], Option, none, some, if◌then◌else◌}
use agent_baker.Prelude.Panic.{◌>>=◌}
use agent_baker.Text.{Text, text, beq, is_empty}
use agent_baker.Datamodel.Profiles.{CustomSearchDomain, HostedMasterProfile}
use agent_baker.Datamodel.Kubernetes.{KubernetesConfig, PrivateCluster}
use agent_baker.Datamodel.Os.{LinuxProfile}
use agent_baker.Datamodel.Bootstrapping.{NodeBootstrappingConfiguration}
use agent_baker.Methods.Kubernetes.{bool_or_false, is_azure_cni, user_assigned_id_enabled}
use agent_baker.Methods.Profiles.{has_search_domain, is_feature_enabled}
use agent_baker.Methods.Windows.{get_ssh_enabled}
use agent_baker.Template.Access.{properties_of, orchestrator_of, kubernetes_of}

abbrev fqdn_of : Option HostedMasterProfile → Text
fqdn_of none = []
fqdn_of (some hosted) = hosted.fqdn

-- `GetKubernetesEndpoint`
unfoldable pub get_kubernetes_endpoint : NodeBootstrappingConfiguration → Option Text
get_kubernetes_endpoint config =
    properties_of config >>= λ p. some (fqdn_of p.hosted_master_profile)

-- `InternalLoadBalancerIP`
unfoldable pub internal_load_balancer_ip : Text
internal_load_balancer_ip = text "192.168.255.15"

-- `IsAzureCNI`
unfoldable pub template_is_azure_cni : NodeBootstrappingConfiguration → Option Bool
template_is_azure_cni config = orchestrator_of config >>= λ o. some (is_azure_cni o)

abbrev private_agent : Option PrivateCluster → Bool
private_agent none = false
private_agent (some cluster) = bool_or_false cluster.enable_hosts_config_agent

abbrev hosts_agent : Option KubernetesConfig → Bool
hosts_agent none = false
hosts_agent (some k) = private_agent k.private_cluster

-- `EnableHostsConfigAgent`
unfoldable pub enable_hosts_config_agent : NodeBootstrappingConfiguration → Option Bool
enable_hosts_config_agent config =
    orchestrator_of config >>= λ o. some (hosts_agent o.kubernetes_config)

-- `UseManagedIdentity`
unfoldable pub template_use_managed_identity : NodeBootstrappingConfiguration → Option Bool
template_use_managed_identity config = kubernetes_of config >>= λ k. some k.use_managed_identity

abbrev pub has_domain : Option LinuxProfile → Bool
has_domain none = false
has_domain (some linux) = has_search_domain linux

-- `HasCustomSearchDomain`
unfoldable pub has_custom_search_domain : NodeBootstrappingConfiguration → Option Bool
has_custom_search_domain config = properties_of config >>= λ p. some (has_domain p.linux_profile)

abbrev pub field_of : (CustomSearchDomain → Text) → Option CustomSearchDomain → Text
field_of field none = []
field_of field (some domain) = field domain

-- A field of the search domain, where there is a whole one; the pointer is not nil then.
abbrev pub domain_field : (CustomSearchDomain → Text) → Option LinuxProfile → Text
domain_field field none = []
domain_field field (some linux) =
    if has_search_domain linux then field_of field linux.custom_search_domain else []

-- `GetSearchDomainName`
unfoldable pub get_search_domain_name : NodeBootstrappingConfiguration → Option Text
get_search_domain_name config =
    properties_of config >>= λ p. some (domain_field CustomSearchDomain.name p.linux_profile)

-- `GetSearchDomainRealmUser`
unfoldable pub get_search_domain_realm_user : NodeBootstrappingConfiguration → Option Text
get_search_domain_realm_user config =
    properties_of config >>= λ p. some (domain_field CustomSearchDomain.realm_user p.linux_profile)

-- `GetSearchDomainRealmPassword`
unfoldable pub get_search_domain_realm_password : NodeBootstrappingConfiguration → Option Text
get_search_domain_realm_password config = properties_of config >>= λ p.
    some (domain_field CustomSearchDomain.realm_password p.linux_profile)

-- `HasCalicoNetworkPolicy`
unfoldable pub has_calico_network_policy : NodeBootstrappingConfiguration → Option Bool
has_calico_network_policy config =
    kubernetes_of config >>= λ k. some (beq k.network_policy (text "calico"))

-- `HasAntreaNetworkPolicy`
unfoldable pub has_antrea_network_policy : NodeBootstrappingConfiguration → Option Bool
has_antrea_network_policy config =
    kubernetes_of config >>= λ k. some (beq k.network_policy (text "antrea"))

-- `HasFlannelNetworkPlugin`
unfoldable pub has_flannel_network_plugin : NodeBootstrappingConfiguration → Option Bool
has_flannel_network_plugin config =
    kubernetes_of config >>= λ k. some (beq k.network_plugin (text "flannel"))

-- `WindowsSSHEnabled`
unfoldable pub windows_ssh_enabled : NodeBootstrappingConfiguration → Option Bool
windows_ssh_enabled config = do
  p ← properties_of config
  windows ← p.windows_profile
  some (get_ssh_enabled windows)

-- `EnableEncryptionWithExternalKms`
unfoldable pub template_enable_encryption : NodeBootstrappingConfiguration → Option Bool
template_enable_encryption config =
    kubernetes_of config >>= λ k. some (bool_or_false k.enable_encryption_with_external_kms)

-- `IsIPv6DualStackFeatureEnabled`
unfoldable pub is_ipv6_dual_stack_feature_enabled : NodeBootstrappingConfiguration → Option Bool
is_ipv6_dual_stack_feature_enabled config = properties_of config >>= λ p.
    some (is_feature_enabled p.feature_flags (text "EnableIPv6DualStack"))

-- `IsKubenet`
unfoldable pub is_kubenet : NodeBootstrappingConfiguration → Option Bool
is_kubenet config = kubernetes_of config >>= λ k. some (beq k.network_plugin (text "kubenet"))

-- `HasPrivateAzureRegistryServer`
unfoldable pub has_private_azure_registry_server : NodeBootstrappingConfiguration → Option Bool
has_private_azure_registry_server config =
    kubernetes_of config >>= λ k. some (not (is_empty k.private_azure_registry_server))

-- `GetPrivateAzureRegistryServer`
unfoldable pub get_private_azure_registry_server : NodeBootstrappingConfiguration → Option Text
get_private_azure_registry_server config =
    kubernetes_of config >>= λ k. some k.private_azure_registry_server

-- `UserAssignedIDEnabled`
unfoldable pub template_user_assigned_id_enabled : NodeBootstrappingConfiguration → Option Bool
template_user_assigned_id_enabled config =
    kubernetes_of config >>= λ k. some (user_assigned_id_enabled k)
