-- ===== src/Generator/Variables.antt =====
-- pkg/agent/variables.go: the variables of the commands and of the custom data for Windows. The
-- names of the cluster make its identifier, so the properties are handed on with the result.
use agent_baker.Prelude.{Bool, true, false, List, [], ◌∷◌, ◌++◌, Option, none, some, if◌then◌else◌}
use agent_baker.Prelude.Panic.{◌>>=◌}
use agent_baker.Prelude.{ℕ}
use agent_baker.Prelude.Int.{ℤ, pos}
use agent_baker.Text.{Text, text, beq, concat, format_bool}
use agent_baker.Datamodel.Cloud.{AzureEnvironmentSpecConfig, CustomCloudEnv}
use agent_baker.Datamodel.Kubernetes.{KubernetesConfig}
use agent_baker.Datamodel.Cluster.{AgentPoolProfile, Properties}
use agent_baker.Datamodel.Bootstrapping.{NodeBootstrappingConfiguration}
use agent_baker.Cluster.{get_subnet_name, get_virtual_network_name, get_vnet_resource_group_name}
use agent_baker.Methods.Kubernetes.{bool_or_false}
use agent_baker.Methods.Pool.{is_mig_node, is_sgx_enabled_sku, pool_is_vhd_distro}
use agent_baker.Methods.Profiles.{is_feature_enabled}
use agent_baker.Methods.Windows.{
  is_always_pull_windows_pause_image, is_csi_proxy_enabled, is_windows_secure_tls_enabled,
}
use agent_baker.Methods.Cluster.{get_vm_type, is_aks_custom_cloud}
use agent_baker.Methods.Naming.{
  get_cluster_id, get_nsg_name, get_route_table_name, get_primary_availability_set_name,
  get_primary_scale_set_name,
}
use agent_baker.Generator.Params.{
  Value, ParamsMap, bool_value, string_value, int_value, empty, entry,
}

abbrev uses_managed_identity : Option KubernetesConfig → Bool
uses_managed_identity none = false
uses_managed_identity (some k) = k.use_managed_identity

-- `useManagedIdentity`
unfoldable pub use_managed_identity : Properties → Option Text
use_managed_identity p = do
  orchestrator ← p.orchestrator_profile
  some (format_bool (uses_managed_identity orchestrator.kubernetes_config))

abbrev uses_instance_metadata : Option KubernetesConfig → Bool
uses_instance_metadata none = false
uses_instance_metadata (some k) = bool_or_false k.use_instance_metadata

-- `useInstanceMetadata`
unfoldable pub use_instance_metadata : Properties → Option Text
use_instance_metadata p = do
  orchestrator ← p.orchestrator_profile
  some (format_bool (uses_instance_metadata orchestrator.kubernetes_config))

abbrev rule_count : Option KubernetesConfig → ℤ
rule_count none = pos 0
rule_count (some k) = k.maximum_load_balancer_rule_count

-- `getMaximumLoadBalancerRuleCount`
unfoldable pub get_maximum_load_balancer_rule_count : Properties → Option ℤ
get_maximum_load_balancer_rule_count p = do
  orchestrator ← p.orchestrator_profile
  some (rule_count orchestrator.kubernetes_config)

-- `isVHD`
unfoldable pub is_vhd : AgentPoolProfile → Text
is_vhd profile = format_bool (pool_is_vhd_distro profile)

-- The command of `getOutBoundCmd`; its test for an empty registry never holds.
abbrev out_bound_command : Text → Text
out_bound_command registry = concat (
    text
      "retrycmd_if_failure() { r=$1; w=$2; t=$3; shift && shift && shift; for i in $(seq 1 $r); do timeout $t ${@}; [ $? -eq 0  ] && break || if [ $i -eq $r ]; then return 1; else sleep $w; fi; done }; ERR_OUTBOUND_CONN_FAIL=50; retrycmd_if_failure 100 1 10 nc -vz "
    ∷ registry
    ∷ text " >> /var/log/azure/cluster-provision-cse-output.log 2>&1 || time nc -vz "
    ∷ registry
    ∷ text " || exit $ERR_OUTBOUND_CONN_FAIL;"
    ∷ [])

abbrev mcr_registry : Option CustomCloudEnv → Text
mcr_registry none = []
mcr_registry (some env) = env.mcr_url ++ text " 443"

abbrev registry_of : AzureEnvironmentSpecConfig → Properties → Text
registry_of cloud p =
    if beq cloud.cloud_name (text "AzureChinaCloud")
    then text "gcr.azk8s.cn 443"
    else if is_aks_custom_cloud p
    then mcr_registry p.custom_cloud_env
    else text "mcr.microsoft.com 443"

-- `getOutBoundCmd`
unfoldable pub get_out_bound_cmd : Properties → Option AzureEnvironmentSpecConfig → Option Text
get_out_bound_cmd p cloud_spec_config =
    if is_feature_enabled p.feature_flags (text "BlockOutboundInternet")
    then some []
    else (cloud_spec_config >>= λ cloud. some (out_bound_command (registry_of cloud p)))

-- The names that both maps below hold.
pub record ClusterNames : Type 0 where
  pub subnet_name : Text
  pub nsg_name : Text
  pub virtual_network_name : Text
  pub route_table_name : Text
  pub primary_availability_set_name : Text
  pub primary_scale_set_name : Text

-- The calls that make the names, in the order of the code.
unfoldable pub cluster_names : (Text → ℕ) → Properties → Option (ClusterNames × Properties)
cluster_names random_uint32 p = do
  subnet ← get_subnet_name p
  (nsg, p1) ← get_nsg_name random_uint32 p
  (id, p2) ← get_cluster_id random_uint32 p1
  network ← get_virtual_network_name id p2
  (route_table, p3) ← get_route_table_name random_uint32 p2
  (availability_set, p4) ← get_primary_availability_set_name random_uint32 p3
  (scale_set, p5) ← get_primary_scale_set_name random_uint32 p4
  some (
    record {
      subnet_name = subnet;
      nsg_name = nsg;
      virtual_network_name = network;
      route_table_name = route_table;
      primary_availability_set_name = availability_set;
      primary_scale_set_name = scale_set;
    },
    p5,
  )

-- A map literal: no name stands twice.
abbrev pub params_of : List (Text × Value) → ParamsMap
params_of [] = empty
params_of ((k, v) ∷ values) = entry k v (params_of values)

abbrev load_balancer_sku_of : Properties → Option Text
load_balancer_sku_of p = do
  orchestrator ← p.orchestrator_profile
  k ← orchestrator.kubernetes_config
  some k.load_balancer_sku

-- `getWindowsCustomDataVariables`
unfoldable pub get_windows_custom_data_variables :
    (Text → ℕ) → NodeBootstrappingConfiguration → Option (ParamsMap × Properties)
get_windows_custom_data_variables random_uint32 config = do
  cs ← config.container_service
  properties ← cs.properties
  (names, p) ← cluster_names random_uint32 properties
  vm_type ← get_vm_type p
  managed_identity ← use_managed_identity p
  instance_metadata ← use_instance_metadata p
  load_balancer_sku ← load_balancer_sku_of p
  windows ← p.windows_profile
  some (
    params_of (
        (text "tenantID", string_value config.tenant_id)
        ∷ (text "subscriptionId", string_value config.subscription_id)
        ∷ (text "resourceGroup", string_value config.resource_group_name)
        ∷ (text "location", string_value cs.location)
        ∷ (text "vmType", string_value vm_type)
        ∷ (text "subnetName", string_value names.subnet_name)
        ∷ (text "nsgName", string_value names.nsg_name)
        ∷ (text "virtualNetworkName", string_value names.virtual_network_name)
        ∷ (text "routeTableName", string_value names.route_table_name)
        ∷ (text "primaryAvailabilitySetName", string_value names.primary_availability_set_name)
        ∷ (text "primaryScaleSetName", string_value names.primary_scale_set_name)
        ∷ (text "useManagedIdentityExtension", string_value managed_identity)
        ∷ (text "useInstanceMetadata", string_value instance_metadata)
        ∷ (text "loadBalancerSku", string_value load_balancer_sku)
        ∷ (text "excludeMasterFromStandardLB", bool_value true)
        ∷ (text "enableTelemetry", bool_value false)
        ∷ (text "windowsEnableCSIProxy", bool_value (is_csi_proxy_enabled windows))
        ∷ (text "windowsCSIProxyURL", string_value windows.csi_proxy_url)
        ∷ (
          text "windowsProvisioningScriptsPackageURL",
          string_value windows.provisioning_scripts_package_url,
        )
        ∷ (text "windowsPauseImageURL", string_value windows.windows_pause_image_url)
        ∷ (
          text "alwaysPullWindowsPauseImage",
          string_value (format_bool (is_always_pull_windows_pause_image windows)),
        )
        ∷ (text "windowsCalicoPackageURL", string_value windows.windows_calico_package_url)
        ∷ (text "windowsSecureTlsEnabled", bool_value (is_windows_secure_tls_enabled windows))
        ∷ (text "windowsGmsaPackageUrl", string_value windows.windows_gmsa_package_url)
        ∷ []),
    p,
  )

-- `getCSECommandVariables`
unfoldable pub get_cse_command_variables :
    (Text → ℕ) → NodeBootstrappingConfiguration → Option (ParamsMap × Properties)
get_cse_command_variables random_uint32 config = do
  cs ← config.container_service
  properties ← cs.properties
  profile ← config.agent_pool_profile
  out_bound_cmd ← get_out_bound_cmd properties config.cloud_spec_config
  (names, p) ← cluster_names random_uint32 properties
  vm_type ← get_vm_type p
  network_resource_group ← get_vnet_resource_group_name p
  managed_identity ← use_managed_identity p
  instance_metadata ← use_instance_metadata p
  load_balancer_sku ← load_balancer_sku_of p
  rules ← get_maximum_load_balancer_rule_count p
  some (
    params_of (
        (text "outBoundCmd", string_value out_bound_cmd)
        ∷ (text "tenantID", string_value config.tenant_id)
        ∷ (text "subscriptionId", string_value config.subscription_id)
        ∷ (text "resourceGroup", string_value config.resource_group_name)
        ∷ (text "location", string_value cs.location)
        ∷ (text "vmType", string_value vm_type)
        ∷ (text "subnetName", string_value names.subnet_name)
        ∷ (text "nsgName", string_value names.nsg_name)
        ∷ (text "virtualNetworkName", string_value names.virtual_network_name)
        ∷ (text "virtualNetworkResourceGroupName", string_value network_resource_group)
        ∷ (text "routeTableName", string_value names.route_table_name)
        ∷ (text "primaryAvailabilitySetName", string_value names.primary_availability_set_name)
        ∷ (text "primaryScaleSetName", string_value names.primary_scale_set_name)
        ∷ (text "useManagedIdentityExtension", string_value managed_identity)
        ∷ (text "useInstanceMetadata", string_value instance_metadata)
        ∷ (text "loadBalancerSku", string_value load_balancer_sku)
        ∷ (text "excludeMasterFromStandardLB", bool_value true)
        ∷ (text "maximumLoadBalancerRuleCount", int_value rules)
        ∷ (text "userAssignedIdentityID", string_value config.user_assigned_identity_client_id)
        ∷ (text "isVHD", string_value (is_vhd profile))
        ∷ (text "gpuNode", string_value (format_bool config.enable_nvidia))
        ∷ (text "sgxNode", string_value (format_bool (is_sgx_enabled_sku profile.vm_size)))
        ∷ (text "configGPUDriverIfNeeded", bool_value config.config_gpu_driver_if_needed)
        ∷ (
          text "enableGPUDevicePluginIfNeeded",
          bool_value config.enable_gpu_device_plugin_if_needed,
        )
        ∷ (text "migNode", string_value (format_bool (is_mig_node config.gpu_instance_profile)))
        ∷ (text "gpuInstanceProfile", string_value config.gpu_instance_profile)
        ∷ []),
    p,
  )
