-- ===== src/Kubelet/Rewrite/Linux.antt =====
-- The flags of a Linux node once its configuration has been rewritten, followed to the kubelet.
use agent_baker.Prelude.{
  Bool, true, false, List, [], ◌≡◌, refl, Option, none, some, arith, if◌then◌else◌,
}
use agent_baker.Text.{Text, text, beq, trim_space}
use agent_baker.Text.Equality.{beq_iff, beq_refl}
use agent_baker.GoMap.{GoMap, lookup, delete}
use agent_baker.GoMap.Laws.{lookup-insert, lookup-delete, get_or-insert, get_or-delete}
use agent_baker.Datamodel.Os.{CustomKubeletConfig}
use agent_baker.Datamodel.Bootstrapping.{NodeBootstrappingConfiguration}
use agent_baker.Versions.Semver.{Semver}
use agent_baker.Kubelet.KeyVals.{add_feature_gate_string}
use agent_baker.Kubelet.KeyVals.Gates.{IsGateKey, Visits, lookup-add_feature_gate_string}
use agent_baker.Kubelet.CommandLine.{is_kubelet_config_file_enabled}
use agent_baker.Kubelet.ConfigFile.{flag, from_flags, kubelet_config}
use agent_baker.Kubelet.ConfigFile.Reads.{kubelet_config-feature_gates}
use agent_baker.Kubelet.Rewrite.{disable_dynamic_config, validate_and_set_linux}

dynamic-IsGateKey : IsGateKey (text "DynamicKubeletConfig")
unfolding text trim_space
dynamic-IsGateKey = record {
  no_str_delim = ground arith;
  no_pair_delim = ground arith;
  trimmed = refl;
}

directory-gates : beq (text "--dynamic-config-dir") (text "--feature-gates") ≡ false
unfolding text beq
directory-gates = refl

gates-directory : beq (text "--feature-gates") (text "--dynamic-config-dir") ≡ false
unfolding text beq
gates-directory = refl

topology-dynamic : beq (text "TopologyManager") (text "DynamicKubeletConfig") ≡ false
unfolding text beq
topology-dynamic = refl

period-dynamic : beq (text "CustomCPUCFSQuotaPeriod") (text "DynamicKubeletConfig") ≡ false
unfolding text beq
period-dynamic = refl

flag-disable_dynamic_config :
    (range : GoMap Bool → List Text) (flags : GoMap Text)
    → flag (disable_dynamic_config range flags) (text "--feature-gates")
      ≡ add_feature_gate_string range
          (flag flags (text "--feature-gates"))
          (text "DynamicKubeletConfig")
          false
unfolding disable_dynamic_config flag
flag-disable_dynamic_config range flags =
    rw
      (
        get_or-insert (delete flags (text "--dynamic-config-dir")) (text "--feature-gates")
            (text "--feature-gates") _ [],
        beq_refl (text "--feature-gates"),
        get_or-delete flags (text "--dynamic-config-dir") (text "--feature-gates") [],
        directory-gates,
      )
      refl

-- The flags afterwards: the directory is gone, the gates are written anew, the rest stays.
lookup-disable_dynamic_config :
    (range : GoMap Bool → List Text) (flags : GoMap Text) (key : Text)
    → beq (text "--feature-gates") key ≡ false
    → lookup (disable_dynamic_config range flags) key
      ≡ (if beq (text "--dynamic-config-dir") key then none else lookup flags key)
unfolding disable_dynamic_config
lookup-disable_dynamic_config range flags key other =
    rw (lookup-insert _ (text "--feature-gates") key _, other)
      (lookup-delete flags (text "--dynamic-config-dir") key)

gates-disable_dynamic_config :
    (range : GoMap Bool → List Text) (flags : GoMap Text) (gate : Text)
    → ((m : GoMap Bool) → Visits m (range m))
    → lookup (from_flags (disable_dynamic_config range flags)).feature_gates gate ≡ (
        if beq (text "DynamicKubeletConfig") gate
        then some false
        else lookup (from_flags flags).feature_gates gate)
unfolding from_flags
gates-disable_dynamic_config range flags gate visits =
    rw (flag-disable_dynamic_config range flags) (
      lookup-add_feature_gate_string range (flag flags (text "--feature-gates"))
        (text "DynamicKubeletConfig") false gate dynamic-IsGateKey visits)

without_custom-disable_dynamic_config :
    (range : GoMap Bool → List Text) (flags : GoMap Text) (gate : Text)
    → ((m : GoMap Bool) → Visits m (range m))
    → lookup (kubelet_config (disable_dynamic_config range flags) none).feature_gates gate ≡ (
        if beq (text "DynamicKubeletConfig") gate
        then some false
        else lookup (kubelet_config flags none).feature_gates gate)
unfolding kubelet_config
without_custom-disable_dynamic_config range flags gate visits =
    gates-disable_dynamic_config range flags gate visits

kubelet_config-disable_dynamic_config :
    (range : GoMap Bool → List Text) (flags : GoMap Text) (custom_kc : Option CustomKubeletConfig)
    (gate : Text)
    → ((m : GoMap Bool) → Visits m (range m))
    → lookup (kubelet_config (disable_dynamic_config range flags) custom_kc).feature_gates gate ≡ (
        if beq (text "DynamicKubeletConfig") gate
        then some false
        else lookup (kubelet_config flags custom_kc).feature_gates gate)
kubelet_config-disable_dynamic_config range flags none gate visits =
    without_custom-disable_dynamic_config range flags gate visits
kubelet_config-disable_dynamic_config range flags (some custom_kc) gate visits =
    rw
      (
        kubelet_config-feature_gates (disable_dynamic_config range flags) custom_kc gate,
        kubelet_config-feature_gates flags custom_kc gate,
        without_custom-disable_dynamic_config range flags gate visits,
      )
      (ground (
        arith,
        topology-dynamic,
        period-dynamic,
        beq_iff (text "DynamicKubeletConfig") gate,
        beq_iff (text "TopologyManager") gate,
        beq_iff (text "CustomCPUCFSQuotaPeriod") gate,
      ))

-- `flags'` is `flags` for a kubelet without dynamic configuration: no directory for it, its gate
-- off in every configuration file, every other flag and gate as before.
pub record DisablesDynamicConfig (flags flags' : GoMap Text) : Type 0 where
  pub no_directory : lookup flags' (text "--dynamic-config-dir") ≡ none
  pub other_flags :
      (key : Text)
      → beq (text "--feature-gates") key ≡ false
      → beq (text "--dynamic-config-dir") key ≡ false
      → lookup flags' key ≡ lookup flags key
  pub gates :
      (custom_kc : Option CustomKubeletConfig) (gate : Text)
      → lookup (kubelet_config flags' custom_kc).feature_gates gate ≡ (
          if beq (text "DynamicKubeletConfig") gate
          then some false
          else lookup (kubelet_config flags custom_kc).feature_gates gate)

disable_dynamic_config_lem :
    (range : GoMap Bool → List Text) (flags : GoMap Text)
    → ((m : GoMap Bool) → Visits m (range m))
    → DisablesDynamicConfig flags (disable_dynamic_config range flags)
disable_dynamic_config_lem range flags visits = record {
  no_directory =
      rw
        (
          lookup-disable_dynamic_config range flags (text "--dynamic-config-dir") gates-directory,
          beq_refl (text "--dynamic-config-dir"),
        )
        refl;
  other_flags = λ key g d. rw (lookup-disable_dynamic_config range flags key g, d) refl;
  gates = λ custom_kc gate. kubelet_config-disable_dynamic_config range flags custom_kc gate visits;
}

-- Where the configuration file is in use and there is a map of flags, the rewriting returns, and
-- its flags disable the dynamic configuration and leave all else to the kubelet as it was,
-- in whatever order Go visits a map.
pub validate_and_set_linux-DisablesDynamicConfig :
    (s : Semver) (range : GoMap Bool → List Text) (config : NodeBootstrappingConfiguration)
    (flags : GoMap Text)
    → ((m : GoMap Bool) → Visits m (range m))
    → config.kubelet_config ≡ some flags
    → is_kubelet_config_file_enabled s config.container_service config.agent_pool_profile
        config.enable_kubelet_config_file
      ≡ some true
    → (flags' : GoMap Text) × (validate_and_set_linux s range config
        ≡ some (record config { kubelet_config = some flags' }))
      × DisablesDynamicConfig flags flags'
unfolding validate_and_set_linux
validate_and_set_linux-DisablesDynamicConfig s range config flags visits given enabled = (
  disable_dynamic_config range flags,
  rw (enabled, given) refl,
  disable_dynamic_config_lem range flags visits,
)
