-- ===== src/Methods/Cluster.antt =====
-- pkg/agent/datamodel/types.go: the methods of `Properties` and `ContainerService`.
pub mod Environment
use agent_baker.Prelude.{
  Bool, true, false, not, ◌||◌, List, [], ◌∷◌, ◌++◌, map, any, Option, none, some, is_some,
  if◌then◌else◌,
}
use agent_baker.Prelude.Panic.{◌>>=◌}
use agent_baker.Prelude.Result.{Result, err, ok}
use agent_baker.Text.{
  Text, text, equal_fold, contains, concat, format_bool, replace_all, sort_strings, trim_suffix,
}
use agent_baker.GoMap.{GoMap, insert, keys, get_or}
use agent_baker.Datamodel.Cloud.{AzureEnvironmentSpecConfig, CustomCloudEnv}
use agent_baker.Datamodel.Kubernetes.{KubernetesConfig, OrchestratorProfile}
use agent_baker.Datamodel.Cluster.{AgentPoolProfile, ContainerService, Properties}
use agent_baker.Methods.Pool.{is_windows, is_virtual_machine_scale_sets, pool_is_vhd_distro}
use agent_baker.Methods.Kubernetes.{is_ip_masq_addon_enabled, is_ip_masq_addon_disabled}
use agent_baker.Methods.Profiles.{is_feature_enabled}

-- `range p.AgentPoolProfiles`: a nil slice has no element.
abbrev pub pools : Option (List (Option AgentPoolProfile)) → List (Option AgentPoolProfile)
pools none = []
pools (some profiles) = profiles

-- The loop of a method that returns true at the first pool with `test`; a nil pool that it comes to
-- is followed, which panics.
unfoldable pub any_pool : (AgentPoolProfile → Bool) → List (Option AgentPoolProfile) → Option Bool
any_pool test [] = some false
any_pool test (none ∷ profiles) = none
any_pool test (some a ∷ profiles) =
    let rest = any_pool test profiles in if test a then some true else rest

-- `Properties.HasAadProfile`
unfoldable pub has_aad_profile : Properties → Bool
has_aad_profile p = is_some p.aad_profile

-- `Properties.HasWindows`
unfoldable pub has_windows : Properties → Option Bool
has_windows p = any_pool is_windows (pools p.agent_pool_profiles)

-- `Properties.HasVMSSAgentPool`
unfoldable pub has_vmss_agent_pool : Properties → Option Bool
has_vmss_agent_pool p = any_pool is_virtual_machine_scale_sets (pools p.agent_pool_profiles)

-- `Properties.GetVMType`
unfoldable pub get_vm_type : Properties → Option Text
get_vm_type p =
    has_vmss_agent_pool p >>= λ vmss. some (if vmss then text "vmss" else text "standard")

-- `Properties.HasDCSeriesSKU`
unfoldable pub has_dc_series_sku : Properties → Option Bool
has_dc_series_sku p =
    any_pool (λ profile. contains profile.vm_size (text "Standard_DC"))
      (pools p.agent_pool_profiles)

-- The loop of `IsVHDDistroForAllNodes`.
abbrev all_vhd : List (Option AgentPoolProfile) → Option Bool
all_vhd [] = some true
all_vhd (none ∷ profiles) = none
all_vhd (some a ∷ profiles) =
    let rest = all_vhd profiles in if not (pool_is_vhd_distro a) then some false else rest

-- `Properties.IsVHDDistroForAllNodes`
unfoldable pub is_vhd_distro_for_all_nodes : Properties → Option Bool
is_vhd_distro_for_all_nodes p = all_vhd (pools p.agent_pool_profiles)

abbrev custom_cloud : Option CustomCloudEnv → Bool
custom_cloud none = false
custom_cloud (some env) =
    equal_fold env.name (text "akscustom") || equal_fold env.name (text "AzureStackCloud")

abbrev stack_cloud : Option CustomCloudEnv → Bool
stack_cloud none = false
stack_cloud (some env) = equal_fold env.name (text "AzureStackCloud")

-- `Properties.IsAKSCustomCloud`
unfoldable pub is_aks_custom_cloud : Properties → Bool
is_aks_custom_cloud p = custom_cloud p.custom_cloud_env

-- `Properties.IsAzureStackCloud`
unfoldable pub is_azure_stack_cloud : Properties → Bool
is_azure_stack_cloud p = stack_cloud p.custom_cloud_env

-- `ContainerService.IsAKSCustomCloud`
unfoldable pub service_is_aks_custom_cloud : ContainerService → Option Bool
service_is_aks_custom_cloud cs = cs.properties >>= λ p. some (custom_cloud p.custom_cloud_env)

-- `ContainerService.IsAzureStackCloud`
unfoldable pub service_is_azure_stack_cloud : ContainerService → Option Bool
service_is_azure_stack_cloud cs = cs.properties >>= λ p. some (stack_cloud p.custom_cloud_env)

abbrev pub env_name : Option CustomCloudEnv → Text
env_name none = []
env_name (some env) = env.name

-- `Properties.GetCustomCloudName`; the pointer is not nil where `IsAKSCustomCloud` holds.
unfoldable pub get_custom_cloud_name : Properties → Text
get_custom_cloud_name p = if is_aks_custom_cloud p then env_name p.custom_cloud_env else []

abbrev addon_disabled : Option OrchestratorProfile → Bool
addon_disabled none = false
addon_disabled (some o) = elim o.kubernetes_config [
  | none ↦ false
  | some k ↦ is_ip_masq_addon_disabled k
]

-- `Properties.IsIPMasqAgentDisabled`
unfoldable pub is_ip_masq_agent_disabled : Properties → Bool
is_ip_masq_agent_disabled p = elim p.hosted_master_profile [
  | none ↦ addon_disabled p.orchestrator_profile
  | some hosted ↦ not hosted.ip_masq_agent
]

abbrev addon_enabled : Option OrchestratorProfile → Option Bool
addon_enabled orchestrator = do
  o ← orchestrator
  k ← o.kubernetes_config
  some (is_ip_masq_addon_enabled k)

-- `Properties.IsIPMasqAgentEnabled`
unfoldable pub is_ip_masq_agent_enabled : Properties → Option Bool
is_ip_masq_agent_enabled p = elim p.hosted_master_profile [
  | none ↦ addon_enabled p.orchestrator_profile
  | some hosted ↦ some hosted.ip_masq_agent
]

-- The map that `GetKubeProxyFeatureGatesWindowsArguments` fills.
unfoldable pub kube_proxy_feature_gates : Properties → GoMap Bool
kube_proxy_feature_gates p =
    let dual =
      if is_feature_enabled p.feature_flags (text "EnableIPv6DualStack")
      then insert [] (text "IPv6DualStack") true
      else [] in
    if is_feature_enabled p.feature_flags (text "EnableWinDSR")
    then insert (insert dual (text "WinDSR") true) (text "WinOverlay") false
    else dual

-- `fmt.Sprintf("\"%s=%t\", ", key, featureGates[key])`
unfoldable pub format_gate_argument : GoMap Bool → Text → Text
format_gate_argument gates key =
    b'"' ∷ (key ++ b'=' ∷ (format_bool (get_or gates key false) ++ text "\", "))

-- `Properties.GetKubeProxyFeatureGatesWindowsArguments`
unfoldable pub get_kube_proxy_feature_gates_windows_arguments : Properties → Text
get_kube_proxy_feature_gates_windows_arguments p =
    trim_suffix
      (concat (
        map (format_gate_argument (kube_proxy_feature_gates p))
          (sort_strings (keys (kube_proxy_feature_gates p)))))
      (text ", ")

-- The error of `GetCustomEnvironmentJSON`, with the message of `json.Marshal`.
pub data EnvironmentError : Type 0 where
  could_not_serialize : Text → EnvironmentError

abbrev escaped : Bool → Result Text Text → Result EnvironmentError Text
escaped escape (err message) = err (could_not_serialize message)
escaped escape (ok json) = ok (if escape then replace_all json (text "\"") (text "\\\"") else json)

-- `p.CustomCloudEnv.Name = name`
abbrev pub renamed : Option CustomCloudEnv → Text → Option CustomCloudEnv
renamed none name = none
renamed (some env) name = some (record env { name = name })

abbrev marshalled : (CustomCloudEnv → Result Text Text) → Option CustomCloudEnv → Result Text Text
marshalled json_marshal none = ok (text "null")
marshalled json_marshal (some env) = json_marshal env

-- `Properties.GetCustomEnvironmentJSON`, with the properties as it leaves them: the name is set
-- for `json.Marshal` and set back by `defer`. `json_marshal` is `json.Marshal`.
unfoldable pub get_custom_environment_json :
    (CustomCloudEnv → Result Text Text)
    → Properties
    → Bool
    → Result EnvironmentError Text × Properties
get_custom_environment_json json_marshal p escape =
    if is_aks_custom_cloud p
    then (let old_name = env_name p.custom_cloud_env in
        let named = renamed p.custom_cloud_env (text "AzureStackCloud") in
        (
          escaped escape (marshalled json_marshal named),
          record p { custom_cloud_env = renamed named old_name },
        ))
    else (ok [], p)

-- `FormatProdFQDNByLocation`. The suffix stands in the format itself; it is taken to hold no verb.
unfoldable pub format_prod_fqdn_by_location :
    Text → Text → Option AzureEnvironmentSpecConfig → Option Text
format_prod_fqdn_by_location fqdn_prefix location cloud_spec_config = do
  cloud ← cloud_spec_config
  some (
      fqdn_prefix
      ++ b'.' ∷ (location ++ b'.' ∷ cloud.endpoint_config.resource_manager_vmdns_suffix))
