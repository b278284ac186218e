-- ===== src/Template/CustomCloud.antt =====
-- pkg/agent/baker.go, `getContainerServiceFuncMap`: the cloud and the endpoints of a custom one.
use agent_baker.Prelude.{Bool, false, Option, some, if◌then◌else◌}
use agent_baker.Prelude.Panic.{◌>>=◌}
use agent_baker.Prelude.Result.{Result}
use agent_baker.Text.{Text, text}
use agent_baker.Text.Base64.{base64_encode}
use agent_baker.Datamodel.Cloud.{CustomCloudEnv}
use agent_baker.Datamodel.Cluster.{Properties}
use agent_baker.Datamodel.Bootstrapping.{NodeBootstrappingConfiguration}
use agent_baker.Cloud.Agent.{get_cloud_target_env}
use agent_baker.Methods.Pool.{or_empty}
use agent_baker.Methods.Cluster.{
  service_is_aks_custom_cloud, service_is_azure_stack_cloud, get_custom_environment_json,
}
use agent_baker.Template.Access.{properties_of}

-- `cs.Properties.CustomCloudEnv`
abbrev pub environment_of : NodeBootstrappingConfiguration → Option CustomCloudEnv
environment_of config = properties_of config >>= Properties.custom_cloud_env

-- `IsAKSCustomCloud`
unfoldable pub template_is_aks_custom_cloud : NodeBootstrappingConfiguration → Option Bool
template_is_aks_custom_cloud config = config.container_service >>= service_is_aks_custom_cloud

-- `IsAzureStackCloud`
unfoldable pub template_is_azure_stack_cloud : NodeBootstrappingConfiguration → Option Bool
template_is_azure_stack_cloud config = config.container_service >>= service_is_azure_stack_cloud

-- `GetTargetEnvironment`
unfoldable pub get_target_environment : NodeBootstrappingConfiguration → Option Text
get_target_environment config = do
  cs ← config.container_service
  custom ← service_is_aks_custom_cloud cs
  if custom
      then (environment_of config >>= λ env. some env.name)
      else some (get_cloud_target_env cs.location)

-- `GetBase64EncodedEnvironmentJSON`; the environment is as it was afterwards.
unfoldable pub get_base64_encoded_environment_json :
    (CustomCloudEnv → Result Text Text) → NodeBootstrappingConfiguration → Option Text
get_base64_encoded_environment_json json_marshal config = properties_of config >>= λ p.
    some (base64_encode (or_empty (get_custom_environment_json json_marshal p false).0))

-- `GetIdentitySystem`
unfoldable pub get_identity_system : Text
get_identity_system = text "azure_ad"

-- `AKSCustomCloudRepoDepotEndpoint`
unfoldable pub aks_custom_cloud_repo_depot_endpoint : NodeBootstrappingConfiguration → Option Text
aks_custom_cloud_repo_depot_endpoint config =
    environment_of config >>= λ env. some env.repo_depot_endpoint

-- `AKSCustomCloudManagementPortalURL`
unfoldable pub aks_custom_cloud_management_portal_url : NodeBootstrappingConfiguration → Option Text
aks_custom_cloud_management_portal_url config =
    environment_of config >>= λ env. some env.management_portal_url

-- `AKSCustomCloudPublishSettingsURL`
unfoldable pub aks_custom_cloud_publish_settings_url : NodeBootstrappingConfiguration → Option Text
aks_custom_cloud_publish_settings_url config =
    environment_of config >>= λ env. some env.publish_settings_url

-- `AKSCustomCloudServiceManagementEndpoint`
unfoldable pub aks_custom_cloud_service_management_endpoint :
    NodeBootstrappingConfiguration → Option Text
aks_custom_cloud_service_management_endpoint config =
    environment_of config >>= λ env. some env.service_management_endpoint

-- `AKSCustomCloudResourceManagerEndpoint`
unfoldable pub aks_custom_cloud_resource_manager_endpoint :
    NodeBootstrappingConfiguration → Option Text
aks_custom_cloud_resource_manager_endpoint config =
    environment_of config >>= λ env. some env.resource_manager_endpoint

-- `AKSCustomCloudActiveDirectoryEndpoint`
unfoldable pub aks_custom_cloud_active_directory_endpoint :
    NodeBootstrappingConfiguration → Option Text
aks_custom_cloud_active_directory_endpoint config =
    environment_of config >>= λ env. some env.active_directory_endpoint

-- `AKSCustomCloudGalleryEndpoint`
unfoldable pub aks_custom_cloud_gallery_endpoint : NodeBootstrappingConfiguration → Option Text
aks_custom_cloud_gallery_endpoint config =
    environment_of config >>= λ env. some env.gallery_endpoint

-- `AKSCustomCloudKeyVaultEndpoint`
unfoldable pub aks_custom_cloud_key_vault_endpoint : NodeBootstrappingConfiguration → Option Text
aks_custom_cloud_key_vault_endpoint config =
    environment_of config >>= λ env. some env.key_vault_endpoint

-- `AKSCustomCloudGraphEndpoint`
unfoldable pub aks_custom_cloud_graph_endpoint : NodeBootstrappingConfiguration → Option Text
aks_custom_cloud_graph_endpoint config = environment_of config >>= λ env. some env.graph_endpoint

-- `AKSCustomCloudServiceBusEndpoint`
unfoldable pub aks_custom_cloud_service_bus_endpoint : NodeBootstrappingConfiguration → Option Text
aks_custom_cloud_service_bus_endpoint config =
    environment_of config >>= λ env. some env.service_bus_endpoint

-- `AKSCustomCloudBatchManagementEndpoint`
unfoldable pub aks_custom_cloud_batch_management_endpoint :
    NodeBootstrappingConfiguration → Option Text
aks_custom_cloud_batch_management_endpoint config =
    environment_of config >>= λ env. some env.batch_management_endpoint

-- `AKSCustomCloudStorageEndpointSuffix`
unfoldable pub aks_custom_cloud_storage_endpoint_suffix :
    NodeBootstrappingConfiguration → Option Text
aks_custom_cloud_storage_endpoint_suffix config =
    environment_of config >>= λ env. some env.storage_endpoint_suffix

-- `AKSCustomCloudSqlDatabaseDNSSuffix`
unfoldable pub aks_custom_cloud_sql_database_dns_suffix :
    NodeBootstrappingConfiguration → Option Text
aks_custom_cloud_sql_database_dns_suffix config =
    environment_of config >>= λ env. some env.sql_database_dns_suffix

-- `AKSCustomCloudTrafficManagerDNSSuffix`
unfoldable pub aks_custom_cloud_traffic_manager_dns_suffix :
    NodeBootstrappingConfiguration → Option Text
aks_custom_cloud_traffic_manager_dns_suffix config =
    environment_of config >>= λ env. some env.traffic_manager_dns_suffix

-- `AKSCustomCloudKeyVaultDNSSuffix`
unfoldable pub aks_custom_cloud_key_vault_dns_suffix : NodeBootstrappingConfiguration → Option Text
aks_custom_cloud_key_vault_dns_suffix config =
    environment_of config >>= λ env. some env.key_vault_dns_suffix

-- `AKSCustomCloudServiceBusEndpointSuffix`
unfoldable pub aks_custom_cloud_service_bus_endpoint_suffix :
    NodeBootstrappingConfiguration → Option Text
aks_custom_cloud_service_bus_endpoint_suffix config =
    environment_of config >>= λ env. some env.service_bus_endpoint_suffix

-- `AKSCustomCloudServiceManagementVMDNSSuffix`
unfoldable pub aks_custom_cloud_service_management_vmdns_suffix :
    NodeBootstrappingConfiguration → Option Text
aks_custom_cloud_service_management_vmdns_suffix config =
    environment_of config >>= λ env. some env.service_management_vmdns_suffix

-- `AKSCustomCloudResourceManagerVMDNSSuffix`
unfoldable pub aks_custom_cloud_resource_manager_vmdns_suffix :
    NodeBootstrappingConfiguration → Option Text
aks_custom_cloud_resource_manager_vmdns_suffix config =
    environment_of config >>= λ env. some env.resource_manager_vmdns_suffix

-- `AKSCustomCloudContainerRegistryDNSSuffix`
unfoldable pub aks_custom_cloud_container_registry_dns_suffix :
    NodeBootstrappingConfiguration → Option Text
aks_custom_cloud_container_registry_dns_suffix config =
    environment_of config >>= λ env. some env.container_registry_dns_suffix

-- `AKSCustomCloudCosmosDBDNSSuffix`
unfoldable pub aks_custom_cloud_cosmos_dbdns_suffix : NodeBootstrappingConfiguration → Option Text
aks_custom_cloud_cosmos_dbdns_suffix config =
    environment_of config >>= λ env. some env.cosmos_dbdns_suffix

-- `AKSCustomCloudTokenAudience`
unfoldable pub aks_custom_cloud_token_audience : NodeBootstrappingConfiguration → Option Text
aks_custom_cloud_token_audience config = environment_of config >>= λ env. some env.token_audience

-- `AKSCustomCloudResourceIdentifiersGraph`
unfoldable pub aks_custom_cloud_resource_identifiers_graph :
    NodeBootstrappingConfiguration → Option Text
aks_custom_cloud_resource_identifiers_graph config =
    environment_of config >>= λ env. some env.resource_identifiers.graph

-- `AKSCustomCloudResourceIdentifiersKeyVault`
unfoldable pub aks_custom_cloud_resource_identifiers_key_vault :
    NodeBootstrappingConfiguration → Option Text
aks_custom_cloud_resource_identifiers_key_vault config =
    environment_of config >>= λ env. some env.resource_identifiers.key_vault

-- `AKSCustomCloudResourceIdentifiersDatalake`
unfoldable pub aks_custom_cloud_resource_identifiers_datalake :
    NodeBootstrappingConfiguration → Option Text
aks_custom_cloud_resource_identifiers_datalake config =
    environment_of config >>= λ env. some env.resource_identifiers.datalake

-- `AKSCustomCloudResourceIdentifiersBatch`
unfoldable pub aks_custom_cloud_resource_identifiers_batch :
    NodeBootstrappingConfiguration → Option Text
aks_custom_cloud_resource_identifiers_batch config =
    environment_of config >>= λ env. some env.resource_identifiers.batch

-- `AKSCustomCloudResourceIdentifiersOperationalInsights`
unfoldable pub aks_custom_cloud_resource_identifiers_operational_insights :
    NodeBootstrappingConfiguration → Option Text
aks_custom_cloud_resource_identifiers_operational_insights config =
    environment_of config >>= λ env. some env.resource_identifiers.operational_insights

-- `AKSCustomCloudResourceIdentifiersStorage`
unfoldable pub aks_custom_cloud_resource_identifiers_storage :
    NodeBootstrappingConfiguration → Option Text
aks_custom_cloud_resource_identifiers_storage config =
    environment_of config >>= λ env. some env.resource_identifiers.storage
