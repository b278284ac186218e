-- ===== src/Datamodel/Kubernetes.antt =====
-- pkg/agent/datamodel/types.go: the Kubernetes configuration, each with its zero value.
use agent_baker.Prelude.{Bool, false, List, [], Option, none}
use agent_baker.Prelude.Int.{ℤ, pos, Float64, positive_zero}
use agent_baker.Text.{Text}
use agent_baker.GoMap.{GoMap}

-- `PrivateJumpboxProfile`
pub record PrivateJumpboxProfile : Type 0 where
  pub name : Text
  pub vm_size : Text
  pub os_disk_size_gb : ℤ
  pub username : Text
  pub public_key : Text
  pub storage_profile : Text

abbrev pub zero_private_jumpbox_profile : PrivateJumpboxProfile
zero_private_jumpbox_profile = record {
  name = [];
  vm_size = [];
  os_disk_size_gb = pos 0;
  username = [];
  public_key = [];
  storage_profile = [];
}

-- `PrivateCluster`
pub record PrivateCluster : Type 0 where
  pub enabled : Option Bool
  pub enable_hosts_config_agent : Option Bool
  pub jumpbox_profile : Option PrivateJumpboxProfile

abbrev pub zero_private_cluster : PrivateCluster
zero_private_cluster = record {
  enabled = none;
  enable_hosts_config_agent = none;
  jumpbox_profile = none;
}

-- `KubernetesContainerSpec`
pub record KubernetesContainerSpec : Type 0 where
  pub name : Text
  pub image : Text
  pub cpu_requests : Text
  pub memory_requests : Text
  pub cpu_limits : Text
  pub memory_limits : Text

abbrev pub zero_kubernetes_container_spec : KubernetesContainerSpec
zero_kubernetes_container_spec = record {
  name = [];
  image = [];
  cpu_requests = [];
  memory_requests = [];
  cpu_limits = [];
  memory_limits = [];
}

-- `AddonNodePoolsConfig`
pub record AddonNodePoolsConfig : Type 0 where
  pub name : Text
  pub config : GoMap Text

abbrev pub zero_addon_node_pools_config : AddonNodePoolsConfig
zero_addon_node_pools_config = record { name = []; config = [] }

-- `KubernetesAddon`
pub record KubernetesAddon : Type 0 where
  pub name : Text
  pub enabled : Option Bool
  pub mode : Text
  pub containers : List KubernetesContainerSpec
  pub config : GoMap Text
  pub pools : List AddonNodePoolsConfig
  pub addon_data : Text

abbrev pub zero_kubernetes_addon : KubernetesAddon
zero_kubernetes_addon = record {
  name = [];
  enabled = none;
  mode = [];
  containers = [];
  config = [];
  pools = [];
  addon_data = [];
}

-- `KubernetesConfig`
pub record KubernetesConfig : Type 0 where
  pub kubernetes_image_base : Text
  pub mcr_kubernetes_image_base : Text
  pub cluster_subnet : Text
  pub network_policy : Text
  pub network_plugin : Text
  pub network_mode : Text
  pub container_runtime : Text
  pub max_pods : ℤ
  pub docker_bridge_subnet : Text
  pub dns_service_ip : Text
  pub service_cidr : Text
  pub use_managed_identity : Bool
  pub user_assigned_id : Text
  pub user_assigned_client_id : Text
  pub custom_hyperkube_image : Text
  pub custom_kube_proxy_image : Text
  pub custom_kube_binary_url : Text
  pub moby_version : Text
  pub containerd_version : Text
  pub windows_node_binaries_url : Text
  pub windows_containerd_url : Text
  pub windows_sdn_plugin_url : Text
  pub use_instance_metadata : Option Bool
  pub enable_rbac : Option Bool
  pub enable_secure_kubelet : Option Bool
  pub private_cluster : Option PrivateCluster
  pub gc_high_threshold : ℤ
  pub gc_low_threshold : ℤ
  pub enable_encryption_with_external_kms : Option Bool
  pub addons : List KubernetesAddon
  pub container_runtime_config : Option (GoMap Text)
  pub controller_manager_config : GoMap Text
  pub scheduler_config : GoMap Text
  pub cloud_provider_backoff_mode : Text
  pub cloud_provider_backoff : Option Bool
  pub cloud_provider_backoff_retries : ℤ
  pub cloud_provider_backoff_jitter : Float64
  pub cloud_provider_backoff_duration : ℤ
  pub cloud_provider_backoff_exponent : Float64
  pub cloud_provider_rate_limit : Option Bool
  pub cloud_provider_rate_limit_qps : Float64
  pub cloud_provider_rate_limit_qps_write : Float64
  pub cloud_provider_rate_limit_bucket : ℤ
  pub cloud_provider_rate_limit_bucket_write : ℤ
  pub cloud_provider_disable_outbound_snat : Option Bool
  pub node_status_update_frequency : Text
  pub load_balancer_sku : Text
  pub exclude_master_from_standard_lb : Option Bool
  pub azure_cniurl_linux : Text
  pub azure_cniurl_windows : Text
  pub maximum_load_balancer_rule_count : ℤ
  pub private_azure_registry_server : Text

abbrev pub zero_kubernetes_config : KubernetesConfig
zero_kubernetes_config = record {
  kubernetes_image_base = [];
  mcr_kubernetes_image_base = [];
  cluster_subnet = [];
  network_policy = [];
  network_plugin = [];
  network_mode = [];
  container_runtime = [];
  max_pods = pos 0;
  docker_bridge_subnet = [];
  dns_service_ip = [];
  service_cidr = [];
  use_managed_identity = false;
  user_assigned_id = [];
  user_assigned_client_id = [];
  custom_hyperkube_image = [];
  custom_kube_proxy_image = [];
  custom_kube_binary_url = [];
  moby_version = [];
  containerd_version = [];
  windows_node_binaries_url = [];
  windows_containerd_url = [];
  windows_sdn_plugin_url = [];
  use_instance_metadata = none;
  enable_rbac = none;
  enable_secure_kubelet = none;
  private_cluster = none;
  gc_high_threshold = pos 0;
  gc_low_threshold = pos 0;
  enable_encryption_with_external_kms = none;
  addons = [];
  container_runtime_config = none;
  controller_manager_config = [];
  scheduler_config = [];
  cloud_provider_backoff_mode = [];
  cloud_provider_backoff = none;
  cloud_provider_backoff_retries = pos 0;
  cloud_provider_backoff_jitter = positive_zero;
  cloud_provider_backoff_duration = pos 0;
  cloud_provider_backoff_exponent = positive_zero;
  cloud_provider_rate_limit = none;
  cloud_provider_rate_limit_qps = positive_zero;
  cloud_provider_rate_limit_qps_write = positive_zero;
  cloud_provider_rate_limit_bucket = pos 0;
  cloud_provider_rate_limit_bucket_write = pos 0;
  cloud_provider_disable_outbound_snat = none;
  node_status_update_frequency = [];
  load_balancer_sku = [];
  exclude_master_from_standard_lb = none;
  azure_cniurl_linux = [];
  azure_cniurl_windows = [];
  maximum_load_balancer_rule_count = pos 0;
  private_azure_registry_server = [];
}

-- `OrchestratorProfile`
pub record OrchestratorProfile : Type 0 where
  pub orchestrator_type : Text
  pub orchestrator_version : Text
  pub kubernetes_config : Option KubernetesConfig

abbrev pub zero_orchestrator_profile : OrchestratorProfile
zero_orchestrator_profile = record {
  orchestrator_type = [];
  orchestrator_version = [];
  kubernetes_config = none;
}
