-- ===== src/Template/Node.antt =====
-- pkg/agent/baker.go, `getContainerServiceFuncMap`: labels, the kubelet and the node's features.
use agent_baker.Prelude.{ℕ, Bool, true, false, not, ◌&&◌, [], Option, none, some, if◌then◌else◌}
use agent_baker.Prelude.Panic.{◌>>=◌}
use agent_baker.Text.{Text, text, is_empty, equal_fold}
use agent_baker.Datamodel.Cluster.{AgentPoolProfile}
use agent_baker.Datamodel.Bootstrapping.{NodeBootstrappingConfiguration}
use agent_baker.Datamodel.KubeletConfiguration.{AksKubeletConfiguration}
use agent_baker.Versions.Semver.{Semver, is_kubernetes_version_ge}
use agent_baker.Kubelet.CommandLine.{
  is_kubernetes, is_kubelet_config_file_enabled, get_ordered_kubelet_config_flag_string,
}
use agent_baker.Kubelet.ConfigFile.{get_kubelet_config_file_content}
use agent_baker.Kubelet.PowerShell.{get_ordered_kubelet_config_string_for_powershell}
use agent_baker.Kubelet.Rewrite.{is_kubelet_client_tls_bootstrapping_enabled}
use agent_baker.Label.{normalize_resource_group_name_for_label}
use agent_baker.Methods.Pool.{get_kubernetes_labels}
use agent_baker.Methods.Cluster.{
  is_ip_masq_agent_enabled, has_dc_series_sku, service_is_azure_stack_cloud,
  get_kube_proxy_feature_gates_windows_arguments,
}
use agent_baker.Template.Access.{properties_of, orchestrator_of}

-- `Disable1804SystemdResolved`
unfoldable pub disable_1804_systemd_resolved : NodeBootstrappingConfiguration → Bool
disable_1804_systemd_resolved config = config.disable1804_systemd_resolved

-- `IsIPMasqAgentEnabled`
unfoldable pub template_is_ip_masq_agent_enabled : NodeBootstrappingConfiguration → Option Bool
template_is_ip_masq_agent_enabled config = properties_of config >>= is_ip_masq_agent_enabled

-- `IsKubernetesVersionGe`
unfoldable pub template_is_kubernetes_version_ge :
    Semver → NodeBootstrappingConfiguration → Text → Option Bool
template_is_kubernetes_version_ge s config version = do
  o ← orchestrator_of config
  some (is_kubernetes o && is_kubernetes_version_ge s o.orchestrator_version version)

-- The labels of both entries below.
abbrev agent_labels : Bool → NodeBootstrappingConfiguration → AgentPoolProfile → Text
agent_labels deprecated config profile =
    get_kubernetes_labels profile
      (normalize_resource_group_name_for_label config.resource_group_name) deprecated
      config.enable_nvidia config.fips_enabled config.ossku (not (is_empty config.bootstrap_token))

-- `GetAgentKubernetesLabels`
unfoldable pub get_agent_kubernetes_labels :
    NodeBootstrappingConfiguration → Option AgentPoolProfile → Option Text
get_agent_kubernetes_labels config profile = profile >>= λ a. some (agent_labels false config a)

-- `GetAgentKubernetesLabelsDeprecated`
unfoldable pub get_agent_kubernetes_labels_deprecated :
    NodeBootstrappingConfiguration → Option AgentPoolProfile → Option Text
get_agent_kubernetes_labels_deprecated config profile =
    profile >>= λ a. some (agent_labels true config a)

-- `GetGPUInstanceProfile`
unfoldable pub get_gpu_instance_profile : NodeBootstrappingConfiguration → Text
get_gpu_instance_profile config = config.gpu_instance_profile

-- `IsMIGEnabledNode`
unfoldable pub is_mig_enabled_node : NodeBootstrappingConfiguration → Bool
is_mig_enabled_node config = not (is_empty config.gpu_instance_profile)

-- `GetKubeletConfigFileContent`; `marshal` is `json.MarshalIndent`.
unfoldable pub template_get_kubelet_config_file_content :
    (AksKubeletConfiguration → Text) → NodeBootstrappingConfiguration → Option Text
template_get_kubelet_config_file_content marshal config = do
  profile ← config.agent_pool_profile
  some (get_kubelet_config_file_content marshal config.kubelet_config profile.custom_kubelet_config)

-- `IsKubeletConfigFileEnabled`
unfoldable pub template_is_kubelet_config_file_enabled :
    Semver → NodeBootstrappingConfiguration → Option Bool
template_is_kubelet_config_file_enabled s config =
    is_kubelet_config_file_enabled s config.container_service config.agent_pool_profile
      config.enable_kubelet_config_file

-- `IsKubeletClientTLSBootstrappingEnabled`
unfoldable pub template_is_kubelet_client_tls_bootstrapping_enabled :
    NodeBootstrappingConfiguration → Option Bool
template_is_kubelet_client_tls_bootstrapping_enabled config = do
  cs ← config.container_service
  stack ← service_is_azure_stack_cloud cs
  some (
      not stack
      && is_kubelet_client_tls_bootstrapping_enabled config.kubelet_client_tls_bootstrap_token)

-- `GetTLSBootstrapTokenForKubeConfig` of pkg/agent/utils.go
unfoldable pub get_tls_bootstrap_token_for_kube_config : Option Text → Text
get_tls_bootstrap_token_for_kube_config none = []
get_tls_bootstrap_token_for_kube_config (some tls_bootstrap_token) = tls_bootstrap_token

-- `GetTLSBootstrapTokenForKubeConfig`
unfoldable pub template_get_tls_bootstrap_token : NodeBootstrappingConfiguration → Text
template_get_tls_bootstrap_token config =
    get_tls_bootstrap_token_for_kube_config config.kubelet_client_tls_bootstrap_token

-- `GetKubeletConfigKeyVals`
unfoldable pub get_kubelet_config_key_vals : Semver → NodeBootstrappingConfiguration → Option Text
get_kubelet_config_key_vals s config =
    get_ordered_kubelet_config_flag_string s config.kubelet_config config.container_service
      config.agent_pool_profile config.enable_kubelet_config_file

-- `GetKubeletConfigKeyValsPsh`
unfoldable pub get_kubelet_config_key_vals_psh : NodeBootstrappingConfiguration → Text
get_kubelet_config_key_vals_psh config = get_ordered_kubelet_config_string_for_powershell config

-- `GetKubeProxyFeatureGatesPsh`
unfoldable pub get_kube_proxy_feature_gates_psh : NodeBootstrappingConfiguration → Option Text
get_kube_proxy_feature_gates_psh config =
    properties_of config >>= λ p. some (get_kube_proxy_feature_gates_windows_arguments p)

-- `IsKubernetes`
unfoldable pub template_is_kubernetes : NodeBootstrappingConfiguration → Option Bool
template_is_kubernetes config = orchestrator_of config >>= λ o. some (is_kubernetes o)

-- `IsMariner`
unfoldable pub is_mariner : NodeBootstrappingConfiguration → Bool
is_mariner config = equal_fold config.ossku (text "CBLMariner")

-- `IsNSeriesSKU`
unfoldable pub is_n_series_sku : NodeBootstrappingConfiguration → Bool
is_n_series_sku config = config.enable_nvidia

-- `HasDCSeriesSKU`
unfoldable pub template_has_dc_series_sku : NodeBootstrappingConfiguration → Option Bool
template_has_dc_series_sku config = properties_of config >>= has_dc_series_sku

-- `TeleportEnabled`
unfoldable pub teleport_enabled : NodeBootstrappingConfiguration → Bool
teleport_enabled config = config.enable_acr_teleport_plugin

-- `GetPodInfraContainerSpec`
unfoldable pub get_pod_infra_container_spec : NodeBootstrappingConfiguration → Option Text
get_pod_infra_container_spec config =
    config.k8s_components >>= λ components. some components.pod_infra_container_image_url

-- `GetHyperkubeImageReference`
unfoldable pub get_hyperkube_image_reference : NodeBootstrappingConfiguration → Option Text
get_hyperkube_image_reference config =
    config.k8s_components >>= λ components. some components.hyperkube_image_url

-- `BoolPtrToInt`
unfoldable pub bool_ptr_to_int : Option Bool → ℕ
bool_ptr_to_int none = 0
bool_ptr_to_int (some v) = if v then 1 else 0

-- `FIPSEnabled`
unfoldable pub template_fips_enabled : NodeBootstrappingConfiguration → Bool
template_fips_enabled config = config.fips_enabled
