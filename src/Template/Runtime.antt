-- ===== src/Template/Runtime.antt =====
-- pkg/agent/baker.go, `getContainerServiceFuncMap`: the container runtime and its data directory.
-- The pool's Kubernetes configuration goes before the cluster's.
pub mod Directory
pub mod Choice
use agent_baker.Prelude.{
  Bool, true, false, not, ◌&&◌, [], Option, none, some, is_some, if◌then◌else◌,
}
use agent_baker.Prelude.Panic.{◌>>=◌}
use agent_baker.Text.{Text, text, beq, is_empty, equal_fold}
use agent_baker.GoMap.{GoMap, get_or}
use agent_baker.Datamodel.Kubernetes.{KubernetesConfig}
use agent_baker.Datamodel.Cluster.{AgentPoolProfile}
use agent_baker.Datamodel.Bootstrapping.{NodeBootstrappingConfiguration}
use agent_baker.Methods.Kubernetes.{needs_containerd, requires_docker}
use agent_baker.Template.Access.{orchestrator_of, kubernetes_of}

-- `k`, where it is not nil and names a runtime
unfoldable pub naming_runtime : Option KubernetesConfig → Option KubernetesConfig
naming_runtime none = none
naming_runtime (some k) = if not (is_empty k.container_runtime) then some k else none

-- `profile.KubernetesConfig`, where both pointers are not nil and it names a runtime
unfoldable pub runtime_override : NodeBootstrappingConfiguration → Option KubernetesConfig
runtime_override config =
    config.agent_pool_profile >>= λ profile. naming_runtime profile.kubernetes_config

abbrev pub at_override :
    Option KubernetesConfig → (KubernetesConfig → Bool) → Option Bool → Option Bool
at_override none test cluster = cluster
at_override (some k) test cluster = some (test k)

-- `NeedsContainerd`
unfoldable pub template_needs_containerd : NodeBootstrappingConfiguration → Option Bool
template_needs_containerd config =
    at_override (runtime_override config) needs_containerd
      (kubernetes_of config >>= λ k. some (needs_containerd k))

-- `UseRuncShimV2`
unfoldable pub use_runc_shim_v2 : NodeBootstrappingConfiguration → Bool
use_runc_shim_v2 config = config.enable_runc_shim_v2

-- `NeedsDocker`
unfoldable pub needs_docker : NodeBootstrappingConfiguration → Option Bool
needs_docker config =
    at_override (runtime_override config) (λ k. not (needs_containerd k))
      (kubernetes_of config >>= λ k. some (not (needs_containerd k)))

-- `IsDockerContainerRuntime`
unfoldable pub is_docker_container_runtime : NodeBootstrappingConfiguration → Option Bool
is_docker_container_runtime config =
    at_override (runtime_override config) (λ k. beq k.container_runtime (text "docker"))
      (kubernetes_of config >>= λ k. some (beq k.container_runtime (text "docker")))

-- `RequiresDocker`: the method reads no field of a nil configuration.
unfoldable pub template_requires_docker : NodeBootstrappingConfiguration → Option Bool
template_requires_docker config =
    at_override (runtime_override config) (λ k. requires_docker (some k))
      (orchestrator_of config >>= λ o. some (requires_docker o.kubernetes_config))

-- `k.ContainerRuntimeConfig[datamodel.ContainerDataDirKey]`; a nil map has no key.
abbrev pub data_dir_in : Option (GoMap Text) → Text
data_dir_in none = []
data_dir_in (some runtime_config) = get_or runtime_config (text "dataDir") []

-- The directory that the pool names; empty where a pointer, the map or the key is missing.
abbrev pub pool_data_dir : AgentPoolProfile → Text
pool_data_dir profile = elim profile.kubernetes_config [
  | none ↦ []
  | some k ↦ data_dir_in k.container_runtime_config
]

-- `HasDataDir`: without a pool the disk type is followed through nil.
unfoldable pub has_data_dir : NodeBootstrappingConfiguration → Option Bool
has_data_dir config = do
  profile ← config.agent_pool_profile
  if not (is_empty (pool_data_dir profile))
      then some true
      else if beq profile.kubelet_disk_type (text "Temporary")
      then some true
      else (do
        k ← kubernetes_of config
        some (
            is_some k.container_runtime_config
            && not (is_empty (data_dir_in k.container_runtime_config))))

-- `GetDataDir`
unfoldable pub get_data_dir : NodeBootstrappingConfiguration → Option Text
get_data_dir config = do
  profile ← config.agent_pool_profile
  if not (is_empty (pool_data_dir profile))
      then some (pool_data_dir profile)
      else if beq profile.kubelet_disk_type (text "Temporary")
      then some (text "/mnt/aks/containers")
      else kubernetes_of config >>= λ k. some (data_dir_in k.container_runtime_config)

abbrev disk_type : Option AgentPoolProfile → Text
disk_type none = []
disk_type (some profile) = profile.kubelet_disk_type

-- `HasKubeletDiskType`
unfoldable pub has_kubelet_disk_type : NodeBootstrappingConfiguration → Bool
has_kubelet_disk_type config = not (is_empty (disk_type config.agent_pool_profile))

-- `GetKubeletDiskType`
unfoldable pub get_kubelet_disk_type : NodeBootstrappingConfiguration → Text
get_kubelet_disk_type config = disk_type config.agent_pool_profile

-- `IsKrustlet`
unfoldable pub is_krustlet : NodeBootstrappingConfiguration → Option Bool
is_krustlet config = config.agent_pool_profile >>= λ profile.
    some (equal_fold profile.workload_runtime (text "WasmWasi"))
