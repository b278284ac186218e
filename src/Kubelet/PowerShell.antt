-- ===== src/Kubelet/PowerShell.antt =====
-- pkg/agent/datamodel/types.go and helper.go: the kubelet's flags, and other settings, as a list of
-- quoted pairs, and the test on the flags for TLS bootstrapping.
pub mod Pairs
pub mod Bootstrap
use agent_baker.Prelude.{Bool, false, List, [], ◌∷◌, ◌++◌, map, Option, none, some, is_some}
use agent_baker.Text.{Text, text, sort_strings, concat, trim_suffix}
use agent_baker.GoMap.{GoMap, keys, get_or, lookup}
use agent_baker.Datamodel.Bootstrapping.{NodeBootstrappingConfiguration}

-- `fmt.Sprintf("\"%s=%s\", ", key, config[key])`
unfoldable pub quote_pair : GoMap Text → Text → Text
quote_pair config key = b'"' ∷ (key ++ b'=' ∷ (get_or config key [] ++ b'"' ∷ []))

-- `GetOrderedEscapedKeyValsString`; `keys` is the order of `range`.
unfoldable pub get_ordered_escaped_key_vals_string : GoMap Text → Text
get_ordered_escaped_key_vals_string config =
    trim_suffix
      (concat (map (λ key. quote_pair config key ++ text ", ") (sort_strings (keys config))))
      (text ", ")

-- `GetOrderedKubeletConfigStringForPowershell`
unfoldable pub get_ordered_kubelet_config_string_for_powershell :
    NodeBootstrappingConfiguration → Text
get_ordered_kubelet_config_string_for_powershell config = elim config.kubelet_config [
  | none ↦ []
  | some flags ↦
      trim_suffix
        (concat (map (λ key. quote_pair flags key ++ text ", ") (sort_strings (keys flags))))
        (text ", ")
]

-- `NeedsTLSBoostraping`; a nil map has no key.
unfoldable pub needs_tls_boostraping : NodeBootstrappingConfiguration → Bool
needs_tls_boostraping config = elim config.kubelet_config [
  | none ↦ false
  | some flags ↦ is_some (lookup flags (text "--bootstrap-kubeconfig"))
]
