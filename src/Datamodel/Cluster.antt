-- ===== src/Datamodel/Cluster.antt =====
-- pkg/agent/datamodel/types.go: agent pools, cluster properties and the container service, each with its zero value.
use agent_baker.Prelude.{List, [], Option, none}
use agent_baker.Prelude.Int.{ℤ}
use agent_baker.Text.{Text}
use agent_baker.GoMap.{GoMap}
use agent_baker.Datamodel.Distro.{Distro}
use agent_baker.Datamodel.Cloud.{CustomCloudEnv}
use agent_baker.Datamodel.Kubernetes.{KubernetesConfig, OrchestratorProfile}
use agent_baker.Datamodel.Os.{
  CustomKubeletConfig, CustomLinuxOsConfig, LinuxProfile, WindowsProfile,
}
use agent_baker.Datamodel.Profiles.{
  AadProfile, AddonProfile, CertificateProfile, CustomProfile, DiagnosticsProfile, Extension,
  ExtensionProfile, FeatureFlags, HostedMasterProfile, ResourcePurchasePlan,
  ServicePrincipalProfile, TelemetryProfile,
}

-- `AgentPoolProfile`
pub record AgentPoolProfile : Type 0 where
  pub name : Text
  pub vm_size : Text
  pub kubelet_disk_type : Text
  pub workload_runtime : Text
  pub dns_prefix : Text
  pub os_type : Text
  pub ports : List ℤ
  pub availability_profile : Text
  pub storage_profile : Text
  pub vnet_subnet_id : Text
  pub distro : Distro
  pub custom_node_labels : GoMap Text
  pub preprovision_extension : Option Extension
  pub kubernetes_config : Option KubernetesConfig
  pub vnet_cidrs : List Text
  pub windows_name_version : Text
  pub custom_kubelet_config : Option CustomKubeletConfig
  pub custom_linux_os_config : Option CustomLinuxOsConfig

abbrev pub zero_agent_pool_profile : AgentPoolProfile
zero_agent_pool_profile = record {
  name = [];
  vm_size = [];
  kubelet_disk_type = [];
  workload_runtime = [];
  dns_prefix = [];
  os_type = [];
  ports = [];
  availability_profile = [];
  storage_profile = [];
  vnet_subnet_id = [];
  distro = [];
  custom_node_labels = [];
  preprovision_extension = none;
  kubernetes_config = none;
  vnet_cidrs = [];
  windows_name_version = [];
  custom_kubelet_config = none;
  custom_linux_os_config = none;
}

-- `Properties`
pub record Properties : Type 0 where
  pub cluster_id : Text
  pub provisioning_state : Text
  pub orchestrator_profile : Option OrchestratorProfile
  pub agent_pool_profiles : Option (List (Option AgentPoolProfile))
  pub linux_profile : Option LinuxProfile
  pub windows_profile : Option WindowsProfile
  pub extension_profiles : List (Option ExtensionProfile)
  pub diagnostics_profile : Option DiagnosticsProfile
  pub service_principal_profile : Option ServicePrincipalProfile
  pub certificate_profile : Option CertificateProfile
  pub aad_profile : Option AadProfile
  pub custom_profile : Option CustomProfile
  pub hosted_master_profile : Option HostedMasterProfile
  pub addon_profiles : GoMap AddonProfile
  pub feature_flags : Option FeatureFlags
  pub telemetry_profile : Option TelemetryProfile
  pub custom_cloud_env : Option CustomCloudEnv

abbrev pub zero_properties : Properties
zero_properties = record {
  cluster_id = [];
  provisioning_state = [];
  orchestrator_profile = none;
  agent_pool_profiles = none;
  linux_profile = none;
  windows_profile = none;
  extension_profiles = [];
  diagnostics_profile = none;
  service_principal_profile = none;
  certificate_profile = none;
  aad_profile = none;
  custom_profile = none;
  hosted_master_profile = none;
  addon_profiles = [];
  feature_flags = none;
  telemetry_profile = none;
  custom_cloud_env = none;
}

-- `ContainerService`
pub record ContainerService : Type 0 where
  pub id : Text
  pub location : Text
  pub name : Text
  pub plan : Option ResourcePurchasePlan
  pub tags : GoMap Text
  pub type_name : Text
  pub properties : Option Properties

abbrev pub zero_container_service : ContainerService
zero_container_service = record {
  id = [];
  location = [];
  name = [];
  plan = none;
  tags = [];
  type_name = [];
  properties = none;
}
