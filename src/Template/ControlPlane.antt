-- ===== src/Template/ControlPlane.antt =====
-- pkg/agent/baker.go, `getContainerServiceFuncMap`: the entries for a control plane node.
use agent_baker.Prelude.{ℕ, Bool, not, [], ◌∷◌, ◌++◌, Option, none, some, if◌then◌else◌}
use agent_baker.Prelude.Panic.{◌>>=◌}
use agent_baker.Prelude.Result.{Result, err, ok}
use agent_baker.Text.{Text, text, beq, is_empty, join}
use agent_baker.Datamodel.Bootstrapping.{NodeBootstrappingConfiguration}
use agent_baker.Versions.Semver.{Semver, is_kubernetes_version_ge}
use agent_baker.Kubelet.PowerShell.{needs_tls_boostraping}
use agent_baker.Certificate.{CertificateTools, certificate_hash}
use agent_baker.Methods.Cluster.{is_ip_masq_agent_enabled}
use agent_baker.Template.Access.{properties_of, orchestrator_of, kubernetes_of}

-- `IsControlPlane`
unfoldable pub is_control_plane : NodeBootstrappingConfiguration → Bool
is_control_plane config = not (is_empty config.bootstrap_token)

-- `NeedsTLSBoostraping`
unfoldable pub template_needs_tls_boostraping : NodeBootstrappingConfiguration → Bool
template_needs_tls_boostraping config = needs_tls_boostraping config

-- `ServiceCidr`
unfoldable pub service_cidr : NodeBootstrappingConfiguration → Option Text
service_cidr config = kubernetes_of config >>= λ k. some k.service_cidr

-- `KubernetesVersion`
unfoldable pub kubernetes_version : NodeBootstrappingConfiguration → Option Text
kubernetes_version config = orchestrator_of config >>= λ o. some o.orchestrator_version

-- `EtcdVersion`
unfoldable pub etcd_version : NodeBootstrappingConfiguration → Text
etcd_version config = config.etcd_version

-- `ResourceGroupName`
unfoldable pub resource_group_name : NodeBootstrappingConfiguration → Text
resource_group_name config = config.resource_group_name

-- `PodCIDR`
unfoldable pub pod_cidr : NodeBootstrappingConfiguration → Option Text
pod_cidr config = kubernetes_of config >>= λ k. some k.cluster_subnet

-- `DNSServiceIP`
unfoldable pub dns_service_ip : NodeBootstrappingConfiguration → Option Text
dns_service_ip config = kubernetes_of config >>= λ k. some k.dns_service_ip

-- `IsKubernetesVersionGe` of pkg/agent/utils.go at the version of the cluster
abbrev pub version_ge : Semver → NodeBootstrappingConfiguration → Text → Option Bool
version_ge s config version =
    orchestrator_of config >>= λ o. some (is_kubernetes_version_ge s o.orchestrator_version version)

-- `CloudProvider`
unfoldable pub cloud_provider : Semver → NodeBootstrappingConfiguration → Option Text
cloud_provider s config = do
  external ← version_ge s config (text "1.22.0")
  some (if external then text "external" else text "azure")

-- `CloudControllerManagerVersion`
unfoldable pub cloud_controller_manager_version :
    Semver → NodeBootstrappingConfiguration → Option Text
cloud_controller_manager_version s config = do
  from_23 ← version_ge s config (text "1.23.0")
  from_22 ← version_ge s config (text "1.22.0")
  some (if from_23 then text "v1.23.11" else if from_22 then text "v1.1.16" else [])

-- `CorednsVersion`
unfoldable pub coredns_version : Semver → NodeBootstrappingConfiguration → Option Text
coredns_version s config = do
  from_23 ← version_ge s config (text "1.23.0")
  from_22 ← version_ge s config (text "1.22.0")
  some (if from_23 then text "1.8.6" else if from_22 then text "1.8.4" else text "1.8.0")

-- `ClusterName`
unfoldable pub cluster_name : NodeBootstrappingConfiguration → Option Text
cluster_name config = do
  p ← properties_of config
  hosted ← p.hosted_master_profile
  some hosted.dns_prefix

-- `KubeadmApiVersion`
unfoldable pub kubeadm_api_version : Semver → NodeBootstrappingConfiguration → Option Text
kubeadm_api_version s config = do
  from_22 ← version_ge s config (text "1.22.0")
  some (if from_22 then text "kubeadm.k8s.io/v1beta3" else text "kubeadm.k8s.io/v1beta2")

-- `NetworkPluging`
unfoldable pub network_pluging : NodeBootstrappingConfiguration → Option Text
network_pluging config = do
  k ← kubernetes_of config
  some (if beq k.network_plugin (text "kubenet") then text "kubenet" else text "cni")

-- `MaxPods`
unfoldable pub max_pods : NodeBootstrappingConfiguration → Option ℕ
max_pods config = do
  k ← kubernetes_of config
  some (if beq k.network_plugin (text "kubenet") then 110 else 30)

-- `NonMasqueradeCIDR`
unfoldable pub non_masquerade_cidr : NodeBootstrappingConfiguration → Option Text
non_masquerade_cidr config = do
  p ← properties_of config
  enabled ← is_ip_masq_agent_enabled p
  if enabled then some (text "0.0.0.0/0") else pod_cidr config

-- `CGroupDriver`
unfoldable pub cgroup_driver : NodeBootstrappingConfiguration → Text
cgroup_driver config =
    if not (is_empty config.bootstrap_token) then text "systemd" else text "cgroupfs"

-- `GetAddonsURI`
unfoldable pub get_addons_uri : Semver → NodeBootstrappingConfiguration → Option Text
get_addons_uri s config = do
  k ← kubernetes_of config
  manager ← version_ge s config (text "1.22.0")
  some (
      join
        ((text "/etc/kubernetes/addons/ip-masq-agent.yaml"
            ∷ text "/etc/kubernetes/addons/ip-masq-agent-configmap.yaml"
            ∷ [])
          ++ ((if beq k.network_policy (text "azure")
                then text "/etc/kubernetes/addons/azure-network-policy.yaml" ∷ []
                else [])
              ++ (if manager
                  then text "/etc/kubernetes/addons/cloud-node-manager.yaml" ∷ []
                  else [])))
        (text " "))

-- `BootstrapToken`
unfoldable pub bootstrap_token : NodeBootstrappingConfiguration → Text
bootstrap_token config = config.bootstrap_token

abbrev or_panic {ℓ} : {E : Type ℓ} → Result E Text → Option Text
or_panic (err e) = none
or_panic (ok hash) = some hash

-- `CACertificateHash`
unfoldable pub ca_certificate_hash : CertificateTools → NodeBootstrappingConfiguration → Option Text
ca_certificate_hash tools config = do
  p ← properties_of config
  certificates ← p.certificate_profile
  answer ← certificate_hash tools certificates.ca_certificate
  or_panic answer

-- `GetCPKubernetesLabels`
unfoldable pub get_cp_kubernetes_labels : Text
get_cp_kubernetes_labels = text "kubernetes.azure.com/role=master"
