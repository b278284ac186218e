-- ===== src/Template/Runtime/Directory.antt =====
-- pkg/agent/baker.go: `HasDataDir` against `GetDataDir`.
use agent_baker.Prelude.{
  Bool, not, ◌&&◌, ◌≡◌, refl, Option, none, some, is_some, Bool-cases, Option-cases, inl, inr,
}
use agent_baker.Prelude.Panic.{◌>>=◌}
use agent_baker.Text.{Text, text, beq, is_empty}
use agent_baker.GoMap.{GoMap}
use agent_baker.Datamodel.Kubernetes.{KubernetesConfig}
use agent_baker.Datamodel.Bootstrapping.{NodeBootstrappingConfiguration}
use agent_baker.Template.Access.{kubernetes_of}
use agent_baker.Template.Runtime.{data_dir_in, pool_data_dir, has_data_dir, get_data_dir}

-- `d != ""` on a result that may be a panic
abbrev pub is_set : Option Text → Option Bool
is_set answer = answer >>= λ d. some (not (is_empty d))

map_names_directory :
    (runtime_config : Option (GoMap Text))
    → (is_some runtime_config && not (is_empty (data_dir_in runtime_config)))
      ≡ not (is_empty (data_dir_in runtime_config))
map_names_directory none = refl
map_names_directory (some runtime_config) = refl

cluster_directory :
    (kubernetes : Option KubernetesConfig)
    → (kubernetes >>= λ k. some (
        is_some k.container_runtime_config
        && not (is_empty (data_dir_in k.container_runtime_config))))
      ≡ is_set (kubernetes >>= λ k. some (data_dir_in k.container_runtime_config))
cluster_directory none = refl
cluster_directory (some k) = rw (map_names_directory k.container_runtime_config)

-- `HasDataDir` says exactly whether the directory that `GetDataDir` gives is set, and one panics
-- where the other does; so a template that asks first never mounts an empty path.
pub has_data_dir_lem :
    (config : NodeBootstrappingConfiguration) → has_data_dir config ≡ is_set (get_data_dir config)
unfolding has_data_dir get_data_dir text
has_data_dir_lem config = elim (Option-cases config.agent_pool_profile) [
  | inl e ↦ rw e
  | inr (profile, e) ↦ elim (Bool-cases (is_empty (pool_data_dir profile))) [
    | inl named ↦ elim (Bool-cases (beq profile.kubelet_disk_type (text "Temporary"))) [
      | inl temporary ↦ rw (e, named, temporary)
      | inr other ↦ rw (e, named, other, cluster_directory (kubernetes_of config))
    ]
    | inr named ↦ rw (e, named, named)
  ]
]
