-- ===== src/Datamodel/Bootstrapping.antt =====
-- pkg/agent/datamodel/types.go: the request for a node and its answer, each with its zero value.
use agent_baker.Prelude.{Bool, false, List, [], Option, none}
use agent_baker.Text.{Text}
use agent_baker.GoMap.{GoMap}
use agent_baker.Datamodel.Cloud.{AzureEnvironmentSpecConfig, AzureOsImageConfig}
use agent_baker.Datamodel.Cluster.{AgentPoolProfile, ContainerService}
use agent_baker.Datamodel.Gallery.{SigConfig, SigImageConfig, zero_sig_config}

-- `K8sComponents`
pub record K8sComponents : Type 0 where
  pub pod_infra_container_image_url : Text
  pub hyperkube_image_url : Text
  pub windows_package_url : Text

abbrev pub zero_k8s_components : K8sComponents
zero_k8s_components = record {
  pod_infra_container_image_url = [];
  hyperkube_image_url = [];
  windows_package_url = [];
}

-- `HTTPProxyConfig`
pub record HttpProxyConfig : Type 0 where
  pub http_proxy : Option Text
  pub https_proxy : Option Text
  pub no_proxy : Option (List Text)
  pub trusted_ca : Option Text

abbrev pub zero_http_proxy_config : HttpProxyConfig
zero_http_proxy_config = record {
  http_proxy = none;
  https_proxy = none;
  no_proxy = none;
  trusted_ca = none;
}

-- `NodeBootstrappingConfiguration`
pub record NodeBootstrappingConfiguration : Type 0 where
  pub container_service : Option ContainerService
  pub cloud_spec_config : Option AzureEnvironmentSpecConfig
  pub k8s_components : Option K8sComponents
  pub agent_pool_profile : Option AgentPoolProfile
  pub tenant_id : Text
  pub subscription_id : Text
  pub resource_group_name : Text
  pub user_assigned_identity_client_id : Text
  pub ossku : Text
  pub config_gpu_driver_if_needed : Bool
  pub disable1804_systemd_resolved : Bool
  pub enable_gpu_device_plugin_if_needed : Bool
  pub enable_kubelet_config_file : Bool
  pub enable_nvidia : Bool
  pub enable_acr_teleport_plugin : Bool
  pub teleportd_plugin_url : Text
  pub containerd_version : Text
  pub runc_version : Text
  pub kubelet_client_tls_bootstrap_token : Option Text
  pub fips_enabled : Bool
  pub http_proxy_config : Option HttpProxyConfig
  pub kubelet_config : Option (GoMap Text)
  pub enable_runc_shim_v2 : Bool
  pub gpu_instance_profile : Text
  pub primary_scale_set_name : Text
  pub sig_config : SigConfig
  pub bootstrap_token : Text
  pub etcd_version : Text

abbrev pub zero_node_bootstrapping_configuration : NodeBootstrappingConfiguration
zero_node_bootstrapping_configuration = record {
  container_service = none;
  cloud_spec_config = none;
  k8s_components = none;
  agent_pool_profile = none;
  tenant_id = [];
  subscription_id = [];
  resource_group_name = [];
  user_assigned_identity_client_id = [];
  ossku = [];
  config_gpu_driver_if_needed = false;
  disable1804_systemd_resolved = false;
  enable_gpu_device_plugin_if_needed = false;
  enable_kubelet_config_file = false;
  enable_nvidia = false;
  enable_acr_teleport_plugin = false;
  teleportd_plugin_url = [];
  containerd_version = [];
  runc_version = [];
  kubelet_client_tls_bootstrap_token = none;
  fips_enabled = false;
  http_proxy_config = none;
  kubelet_config = none;
  enable_runc_shim_v2 = false;
  gpu_instance_profile = [];
  primary_scale_set_name = [];
  sig_config = zero_sig_config;
  bootstrap_token = [];
  etcd_version = [];
}

-- `NodeBootstrapping`
pub record NodeBootstrapping : Type 0 where
  pub custom_data : Text
  pub cse : Text
  pub os_image_config : Option AzureOsImageConfig
  pub sig_image_config : Option SigImageConfig

abbrev pub zero_node_bootstrapping : NodeBootstrapping
zero_node_bootstrapping = record {
  custom_data = [];
  cse = [];
  os_image_config = none;
  sig_image_config = none;
}
