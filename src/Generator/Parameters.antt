-- ===== src/Generator/Parameters.antt =====
-- pkg/agent/params.go: the parameters of the templates. `Value` entries are added in the order of the
-- code, and a panic on the way is `none`.
pub mod Kubernetes
use agent_baker.Prelude.{
  ℕ, Bool, true, false, not, ◌&&◌, List, [], ◌∷◌, ◌++◌, Option, none, some, is_some, if◌then◌else◌,
}
use agent_baker.Prelude.Panic.{◌>>=◌}
use agent_baker.Prelude.Int.{Float64}
use agent_baker.Text.{Text, text, beq, is_empty, join}
use agent_baker.Datamodel.Os.{LinuxProfile, WindowsProfile}
use agent_baker.Datamodel.Profiles.{HostedMasterProfile}
use agent_baker.Datamodel.Kubernetes.{OrchestratorProfile}
use agent_baker.Datamodel.Cluster.{AgentPoolProfile, Properties}
use agent_baker.Datamodel.Bootstrapping.{NodeBootstrappingConfiguration}
use agent_baker.Kubelet.CommandLine.{is_kubernetes}
use agent_baker.Methods.Profiles.{is_nonempty}
use agent_baker.Methods.Windows.{
  get_windows_docker_version, get_default_containerd_windows_sandbox_isolation,
  get_containerd_windows_runtime_handlers,
}
use agent_baker.Methods.Cluster.{pools, has_windows}
use agent_baker.Generator.Params.{ParamsMap, empty, string_value}
use agent_baker.Generator.Parameters.Kubernetes.{
  Assignment, value, assign_all, assignments_when, assign_kubernetes_parameters,
  assign_kubernetes_parameters_from_agent_profile,
}

abbrev admin_assignments : Option LinuxProfile → List Assignment
admin_assignments none = []
admin_assignments (some linux) =
    value (text "linuxAdminUsername") (string_value linux.admin_username) ∷ []

abbrev master_assignments : Option HostedMasterProfile → List Assignment
master_assignments none = []
master_assignments (some hosted) =
    value (text "masterEndpointDNSNamePrefix") (string_value hosted.dns_prefix)
    ∷ value (text "vnetCidr") (string_value (text "10.0.0.0/8"))
    ∷ []

-- The loop of `getParameters` over the pools: the first that has its own ranges sets them,
-- and no pool after it is followed.
unfoldable pub vnet_assignments : List (Option AgentPoolProfile) → Option (List Assignment)
vnet_assignments [] = some []
vnet_assignments (none ∷ profiles) = none
vnet_assignments (some agent_profile ∷ profiles) =
    let rest = vnet_assignments profiles in
    if is_nonempty agent_profile.vnet_cidrs
    then some
        (value (text "vnetCidr") (string_value (join agent_profile.vnet_cidrs (text ","))) ∷ [])
    else rest

abbrev pool_assignments : NodeBootstrappingConfiguration → Option AgentPoolProfile → List Assignment
pool_assignments config none = []
pool_assignments config (some profile) =
    assign_kubernetes_parameters_from_agent_profile profile config

abbrev both_assignments :
    (Float64 → Text)
    → NodeBootstrappingConfiguration
    → Properties
    → OrchestratorProfile
    → Option (List Assignment)
both_assignments format_float config properties orchestrator = do
  assignments ←
      assign_kubernetes_parameters format_float properties orchestrator config.cloud_spec_config
        config.k8s_components
  some (assignments ++ pool_assignments config config.agent_pool_profile)

-- The part of `getParameters` for Kubernetes.
unfoldable pub kubernetes_assignments :
    (Float64 → Text) → NodeBootstrappingConfiguration → Properties → Option (List Assignment)
kubernetes_assignments format_float config properties = do
  orchestrator ← properties.orchestrator_profile
  if is_kubernetes orchestrator
      then both_assignments format_float config properties orchestrator
      else some []

abbrev windows_assignments : WindowsProfile → List Assignment
windows_assignments windows =
    value (text "windowsDockerVersion") (string_value (get_windows_docker_version windows))
    ∷ value (text "defaultContainerdWindowsSandboxIsolation")
        (string_value (get_default_containerd_windows_sandbox_isolation windows))
    ∷ value (text "containerdWindowsRuntimeHandlers")
        (string_value (get_containerd_windows_runtime_handlers windows))
    ∷ []

abbrev windows_part : Properties → Option (List Assignment)
windows_part properties = do
  windows_cluster ← has_windows properties
  if windows_cluster
      then (properties.windows_profile >>= λ windows. some (windows_assignments windows))
      else some []

-- `getParameters`; `format_float` is `strconv.FormatFloat(_, 'f', -1, 64)`.
unfoldable pub get_parameters : (Float64 → Text) → NodeBootstrappingConfiguration → Option ParamsMap
get_parameters format_float config = do
  cs ← config.container_service
  properties ← cs.properties
  kubernetes ← kubernetes_assignments format_float config properties
  vnet ← vnet_assignments (pools properties.agent_pool_profiles)
  windows ← windows_part properties
  some (
      assign_all empty (
        admin_assignments properties.linux_profile
        ++ (master_assignments properties.hosted_master_profile
            ++ (kubernetes ++ (vnet ++ windows)))))
