-- ===== src/Datamodel/Cloud.antt =====
-- pkg/agent/datamodel/types.go and azenvtypes.go: descriptions of a cloud, each with its zero value.
use agent_baker.Prelude.{Bool, false, []}
use agent_baker.Text.{Text}
use agent_baker.GoMap.{GoMap}

-- `ResourceIdentifiers`
pub record ResourceIdentifiers : Type 0 where
  pub graph : Text
  pub key_vault : Text
  pub datalake : Text
  pub batch : Text
  pub operational_insights : Text
  pub storage : Text

abbrev pub zero_resource_identifiers : ResourceIdentifiers
zero_resource_identifiers = record {
  graph = [];
  key_vault = [];
  datalake = [];
  batch = [];
  operational_insights = [];
  storage = [];
}

-- `CustomCloudEnv`
pub record CustomCloudEnv : Type 0 where
  pub name : Text
  pub mcr_url : Text
  pub repo_depot_endpoint : Text
  pub management_portal_url : Text
  pub publish_settings_url : Text
  pub service_management_endpoint : Text
  pub resource_manager_endpoint : Text
  pub active_directory_endpoint : Text
  pub gallery_endpoint : Text
  pub key_vault_endpoint : Text
  pub graph_endpoint : Text
  pub service_bus_endpoint : Text
  pub batch_management_endpoint : Text
  pub storage_endpoint_suffix : Text
  pub sql_database_dns_suffix : Text
  pub traffic_manager_dns_suffix : Text
  pub key_vault_dns_suffix : Text
  pub service_bus_endpoint_suffix : Text
  pub service_management_vmdns_suffix : Text
  pub resource_manager_vmdns_suffix : Text
  pub container_registry_dns_suffix : Text
  pub cosmos_dbdns_suffix : Text
  pub token_audience : Text
  pub resource_identifiers : ResourceIdentifiers

abbrev pub zero_custom_cloud_env : CustomCloudEnv
zero_custom_cloud_env = record {
  name = [];
  mcr_url = [];
  repo_depot_endpoint = [];
  management_portal_url = [];
  publish_settings_url = [];
  service_management_endpoint = [];
  resource_manager_endpoint = [];
  active_directory_endpoint = [];
  gallery_endpoint = [];
  key_vault_endpoint = [];
  graph_endpoint = [];
  service_bus_endpoint = [];
  batch_management_endpoint = [];
  storage_endpoint_suffix = [];
  sql_database_dns_suffix = [];
  traffic_manager_dns_suffix = [];
  key_vault_dns_suffix = [];
  service_bus_endpoint_suffix = [];
  service_management_vmdns_suffix = [];
  resource_manager_vmdns_suffix = [];
  container_registry_dns_suffix = [];
  cosmos_dbdns_suffix = [];
  token_audience = [];
  resource_identifiers = zero_resource_identifiers;
}

-- `DockerSpecConfig`
pub record DockerSpecConfig : Type 0 where
  pub docker_engine_repo : Text
  pub docker_compose_download_url : Text

abbrev pub zero_docker_spec_config : DockerSpecConfig
zero_docker_spec_config = record { docker_engine_repo = []; docker_compose_download_url = [] }

-- `KubernetesSpecConfig`
pub record KubernetesSpecConfig : Type 0 where
  pub azure_telemetry_pid : Text
  pub kubernetes_image_base : Text
  pub tiller_image_base : Text
  pub aci_connector_image_base : Text
  pub mcr_kubernetes_image_base : Text
  pub nvidia_image_base : Text
  pub azure_cni_image_base : Text
  pub calico_image_base : Text
  pub etcd_download_url_base : Text
  pub kube_binaries_sasurl_base : Text
  pub windows_telemetry_guid : Text
  pub cni_plugins_download_url : Text
  pub vnet_cni_linux_plugins_download_url : Text
  pub vnet_cni_windows_plugins_download_url : Text
  pub containerd_download_url_base : Text
  pub csi_proxy_download_url : Text
  pub windows_provisioning_scripts_package_url : Text
  pub windows_pause_image_url : Text
  pub always_pull_windows_pause_image : Bool

abbrev pub zero_kubernetes_spec_config : KubernetesSpecConfig
zero_kubernetes_spec_config = record {
  azure_telemetry_pid = [];
  kubernetes_image_base = [];
  tiller_image_base = [];
  aci_connector_image_base = [];
  mcr_kubernetes_image_base = [];
  nvidia_image_base = [];
  azure_cni_image_base = [];
  calico_image_base = [];
  etcd_download_url_base = [];
  kube_binaries_sasurl_base = [];
  windows_telemetry_guid = [];
  cni_plugins_download_url = [];
  vnet_cni_linux_plugins_download_url = [];
  vnet_cni_windows_plugins_download_url = [];
  containerd_download_url_base = [];
  csi_proxy_download_url = [];
  windows_provisioning_scripts_package_url = [];
  windows_pause_image_url = [];
  always_pull_windows_pause_image = false;
}

-- `AzureEndpointConfig`
pub record AzureEndpointConfig : Type 0 where
  pub resource_manager_vmdns_suffix : Text

abbrev pub zero_azure_endpoint_config : AzureEndpointConfig
zero_azure_endpoint_config = record { resource_manager_vmdns_suffix = [] }

-- `AzureOSImageConfig`
pub record AzureOsImageConfig : Type 0 where
  pub image_offer : Text
  pub image_sku : Text
  pub image_publisher : Text
  pub image_version : Text

abbrev pub zero_azure_os_image_config : AzureOsImageConfig
zero_azure_os_image_config = record {
  image_offer = [];
  image_sku = [];
  image_publisher = [];
  image_version = [];
}

-- `AzureEnvironmentSpecConfig`
pub record AzureEnvironmentSpecConfig : Type 0 where
  pub cloud_name : Text
  pub docker_spec_config : DockerSpecConfig
  pub kubernetes_spec_config : KubernetesSpecConfig
  pub endpoint_config : AzureEndpointConfig
  pub os_image_config : GoMap AzureOsImageConfig

abbrev pub zero_azure_environment_spec_config : AzureEnvironmentSpecConfig
zero_azure_environment_spec_config = record {
  cloud_name = [];
  docker_spec_config = zero_docker_spec_config;
  kubernetes_spec_config = zero_kubernetes_spec_config;
  endpoint_config = zero_azure_endpoint_config;
  os_image_config = [];
}
