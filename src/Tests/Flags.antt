-- ===== src/Tests/Flags.antt =====
-- The kubelet's flags, at a configuration of two flags.
use agent_baker.Prelude.{
  map, true, false, not, ◌&&◌, ◌||◌, [], ◌∷◌, ◌≡◌, refl, none, some, is_some, arith, if◌then◌else◌,
}
use agent_baker.Text.{join, sort_strings, Text, text, beq, trim_space, is_empty, string_in_slice}
use agent_baker.Text.Equality.{beq_iff}
use agent_baker.GoMap.{GoMap, lookup, keys, insert, HasUniqueKeys}
use agent_baker.Datamodel.Os.{CustomKubeletConfig, zero_custom_kubelet_config}
use agent_baker.Datamodel.Cluster.{AgentPoolProfile, zero_agent_pool_profile}
use agent_baker.Datamodel.Bootstrapping.{
  NodeBootstrappingConfiguration, zero_node_bootstrapping_configuration,
}
use agent_baker.Kubelet.KeyVals.{str_key_val_to_map_bool, add_feature_gate_string}
use agent_baker.Kubelet.KeyVals.Gates.{IsGateKey, keys-Visits, lookup-add_feature_gate_string}
use agent_baker.Kubelet.CommandLine.{
  is_translated, is_kubelet_config_file_enabled, ordered_flags,
  get_ordered_kubelet_config_flag_string,
}
use agent_baker.Kubelet.CommandLine.Order.{
  string_in_slice-ordered_flags, get_ordered_kubelet_config_flag_string_order,
}
use agent_baker.Kubelet.ConfigFile.{kubelet_config}
use agent_baker.Kubelet.ConfigFile.Reads.{
  read_flags, kubelet_config-lost_flag, kubelet_config-feature_gates,
}
use agent_baker.Kubelet.Rewrite.{validate_and_set_linux, validate_and_set_windows}
use agent_baker.Kubelet.Rewrite.Linux.{
  DisablesDynamicConfig, validate_and_set_linux-DisablesDynamicConfig,
}
use agent_baker.Kubelet.Rewrite.Windows.{
  BackfillsBootstrap, validate_and_set_windows-BackfillsBootstrap,
}
use agent_baker.Kubelet.PowerShell.{
  quote_pair, get_ordered_escaped_key_vals_string, get_ordered_kubelet_config_string_for_powershell,
  needs_tls_boostraping,
}
use agent_baker.Kubelet.PowerShell.Pairs.{
  get_ordered_escaped_key_vals_string_lem, get_ordered_escaped_key_vals_string_order,
}
use agent_baker.Kubelet.PowerShell.Bootstrap.{needs_tls_boostraping-validate_and_set_windows}
use agent_baker.Tests.Numbers.{numbers}

abbrev feature_gates : Text
feature_gates = text "RotateKubeletServerCertificate=true, DynamicKubeletConfig=true"

abbrev flags : GoMap Text
flags =
    (text "--feature-gates", feature_gates)
    ∷ (text "--dynamic-config-dir", text "/var/lib/kubelet")
    ∷ (text "--v", text "2")
    ∷ []

abbrev reordered : GoMap Text
reordered =
    (text "--v", text "2")
    ∷ (text "--feature-gates", feature_gates)
    ∷ (text "--dynamic-config-dir", text "/var/lib/kubelet")
    ∷ []

dynamic_key : IsGateKey (text "DynamicKubeletConfig")
unfolding text trim_space
dynamic_key = record { no_str_delim = ground arith; no_pair_delim = ground arith; trimmed = refl }

lookup-add_feature_gate_string_example :
    lookup
      (str_key_val_to_map_bool
        (add_feature_gate_string keys feature_gates (text "DynamicKubeletConfig") false)
        b','
        b'=')
      (text "RotateKubeletServerCertificate")
    ≡ (if beq (text "DynamicKubeletConfig") (text "RotateKubeletServerCertificate")
        then some false
        else lookup
            (str_key_val_to_map_bool feature_gates b',' b'=')
            (text "RotateKubeletServerCertificate"))
lookup-add_feature_gate_string_example =
    lookup-add_feature_gate_string keys feature_gates (text "DynamicKubeletConfig") false
      (text "RotateKubeletServerCertificate") dynamic_key keys-Visits

abbrev custom : CustomKubeletConfig
custom = record zero_custom_kubelet_config { topology_manager_policy = text "best-effort" }

abbrev profile : AgentPoolProfile
profile = record zero_agent_pool_profile { custom_kubelet_config = some custom }

abbrev config : NodeBootstrappingConfiguration
config = record zero_node_bootstrapping_configuration {
  agent_pool_profile = some profile;
  kubelet_config = some flags;
}

enabled : is_kubelet_config_file_enabled numbers none (some profile) false ≡ some true
unfolding is_kubelet_config_file_enabled
enabled = refl

validate_and_set_linux-DisablesDynamicConfig_example :
    (flags' : GoMap Text) × (validate_and_set_linux numbers keys config
      ≡ some (record config { kubelet_config = some flags' }))
    × DisablesDynamicConfig flags flags'
validate_and_set_linux-DisablesDynamicConfig_example =
    validate_and_set_linux-DisablesDynamicConfig numbers keys config flags keys-Visits refl enabled

fail_swap_on_translated : is_translated (text "--fail-swap-on") ≡ true
unfolding is_translated string_in_slice beq text
fail_swap_on_translated = refl

fail_swap_on_unread : string_in_slice (text "--fail-swap-on") read_flags ≡ false
unfolding read_flags string_in_slice beq text
fail_swap_on_unread = refl

kubelet_config-lost_flag_example :
    (kubelet_config (insert flags (text "--fail-swap-on") (text "false")) none
      ≡ kubelet_config flags none)
    × (string_in_slice
          (text "--fail-swap-on")
          (ordered_flags true (insert flags (text "--fail-swap-on") (text "false")))
        ≡ false)
kubelet_config-lost_flag_example =
    kubelet_config-lost_flag flags none (text "--fail-swap-on") (text "false")
      fail_swap_on_translated fail_swap_on_unread

kubelet_config-feature_gates_example :
    lookup (kubelet_config flags (some custom)).feature_gates (text "TopologyManager") ≡ (
      if (beq (text "TopologyManager") (text "TopologyManager")
          && not (is_empty custom.topology_manager_policy))
        || (beq (text "CustomCPUCFSQuotaPeriod") (text "TopologyManager")
            && not (is_empty custom.cpu_cfs_quota_period))
      then some true
      else lookup (kubelet_config flags none).feature_gates (text "TopologyManager"))
kubelet_config-feature_gates_example =
    kubelet_config-feature_gates flags custom (text "TopologyManager")

string_in_slice-ordered_flags_example :
    string_in_slice (text "--feature-gates") (ordered_flags true flags) ≡ (
      is_some (lookup flags (text "--feature-gates"))
      && (not true || not (is_translated (text "--feature-gates"))))
string_in_slice-ordered_flags_example =
    string_in_slice-ordered_flags true flags (text "--feature-gates")

flags_unique : HasUniqueKeys flags
unfolding text beq
flags_unique = ground arith

reordered_unique : HasUniqueKeys reordered
unfolding text beq
reordered_unique = ground arith

v_gates : beq (text "--v") (text "--feature-gates") ≡ false
unfolding beq text
v_gates = refl

v_directory : beq (text "--v") (text "--dynamic-config-dir") ≡ false
unfolding beq text
v_directory = refl

same_flags : (key : Text) → lookup flags key ≡ lookup reordered key
unfolding lookup
same_flags key = ground (
  arith,
  v_gates,
  v_directory,
  beq_iff (text "--v") key,
  beq_iff (text "--feature-gates") key,
  beq_iff (text "--dynamic-config-dir") key,
)

get_ordered_kubelet_config_flag_string_order_example :
    get_ordered_kubelet_config_flag_string numbers (some flags) none (some profile) false
    ≡ get_ordered_kubelet_config_flag_string numbers (some reordered) none (some profile) false
get_ordered_kubelet_config_flag_string_order_example =
    get_ordered_kubelet_config_flag_string_order flags reordered flags_unique reordered_unique
      same_flags numbers none (some profile) false

validate_and_set_windows-BackfillsBootstrap_example :
    (flags' : GoMap Text) × BackfillsBootstrap (some flags) flags'
    × (validate_and_set_windows (record config {
      kubelet_client_tls_bootstrap_token = some (text "07401b.f395accd246ae52d");
    })
        ≡ record config {
          kubelet_client_tls_bootstrap_token = some (text "07401b.f395accd246ae52d");
          kubelet_config = some flags';
        })
validate_and_set_windows-BackfillsBootstrap_example =
    validate_and_set_windows-BackfillsBootstrap
      (record config { kubelet_client_tls_bootstrap_token = some (text "07401b.f395accd246ae52d") })

get_ordered_escaped_key_vals_string_lem_example :
    get_ordered_escaped_key_vals_string flags
    ≡ join (map (quote_pair flags) (sort_strings (keys flags))) (text ", ")
get_ordered_escaped_key_vals_string_lem_example = get_ordered_escaped_key_vals_string_lem flags

get_ordered_escaped_key_vals_string_order_example :
    (get_ordered_escaped_key_vals_string flags ≡ get_ordered_escaped_key_vals_string reordered)
    × (get_ordered_kubelet_config_string_for_powershell
          (record config { kubelet_config = some flags })
        ≡ get_ordered_kubelet_config_string_for_powershell
            (record config { kubelet_config = some reordered }))
get_ordered_escaped_key_vals_string_order_example =
    get_ordered_escaped_key_vals_string_order flags reordered flags_unique reordered_unique
      same_flags config

needs_tls_boostraping-validate_and_set_windows_example :
    needs_tls_boostraping (validate_and_set_windows config)
    ≡ (is_some config.kubelet_client_tls_bootstrap_token || needs_tls_boostraping config)
needs_tls_boostraping-validate_and_set_windows_example =
    needs_tls_boostraping-validate_and_set_windows config
