-- ===== src/Template/Settings/Swap.antt =====
-- pkg/agent/baker.go: the size of the swap file.
use agent_baker.Prelude.{true, ◌&&◌, ◌≡◌, refl, arith, Option, none, some}
use agent_baker.Prelude.Panic.{◌>>=◌}
use agent_baker.Prelude.Int.{ℤ, is_positive}
use agent_baker.Datamodel.Os.{CustomLinuxOsConfig}
use agent_baker.Datamodel.Cluster.{AgentPoolProfile}
use agent_baker.Datamodel.Bootstrapping.{NodeBootstrappingConfiguration}
use agent_baker.Template.Settings.{
  is_positive_pointer, should_config_swap_file, get_swap_file_size_mb, swap_allowed,
  swap_size_positive,
}

-- The size of the swap file, as a result that is no panic.
pub record HasSize (size : Option ℤ) : Type 0 where
  pub megabytes : ℤ
  pub present : size ≡ some megabytes
  pub positive : is_positive megabytes ≡ true

pointer_size : (size : Option ℤ) → is_positive_pointer size ≡ true → HasSize size
pointer_size none h = absurd (ground (arith, h))
pointer_size (some n) h = record { megabytes = n; present = refl; positive = h }

positive_size :
    (os : Option CustomLinuxOsConfig)
    → swap_size_positive os ≡ true
    → HasSize (os >>= CustomLinuxOsConfig.swap_file_size_mb)
positive_size none h = absurd (ground (arith, h))
positive_size (some os) h = pointer_size os.swap_file_size_mb h

profile_size :
    (profile : Option AgentPoolProfile)
    → (profile >>= λ profile. some (
        swap_allowed profile.custom_kubelet_config
        && swap_size_positive profile.custom_linux_os_config))
      ≡ some true
    → HasSize (
        profile >>= λ profile.
        profile.custom_linux_os_config >>= CustomLinuxOsConfig.swap_file_size_mb)
profile_size none h = absurd (ground (arith, h))
profile_size (some profile) h = positive_size profile.custom_linux_os_config (ground (arith, h))

-- Where a template is told to configure a swap file, reading the size goes through no nil pointer
-- and gives a positive number of megabytes.
pub should_config_swap_file-HasSize :
    (config : NodeBootstrappingConfiguration)
    → should_config_swap_file config ≡ some true
    → HasSize (get_swap_file_size_mb config)
unfolding should_config_swap_file get_swap_file_size_mb
should_config_swap_file-HasSize config h = profile_size config.agent_pool_profile h
