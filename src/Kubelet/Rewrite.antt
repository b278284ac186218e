-- ===== src/Kubelet/Rewrite.antt =====
-- pkg/agent/baker.go: what is done to the kubelet's flags before a template reads them
-- (validateAndSetLinuxNodeBootstrappingConfiguration and its counterpart for Windows).
pub mod Linux
pub mod Windows
use agent_baker.Prelude.{
  Bool, true, false, List, [], ◌∷◌, Option, none, some, is_some, if◌then◌else◌,
}
use agent_baker.Prelude.Panic.{◌>>=◌}
use agent_baker.Text.{Text, text}
use agent_baker.GoMap.{GoMap, get_or, insert, delete}
use agent_baker.Datamodel.Bootstrapping.{NodeBootstrappingConfiguration}
use agent_baker.Versions.Semver.{Semver}
use agent_baker.Kubelet.KeyVals.{add_feature_gate_string}
use agent_baker.Kubelet.CommandLine.{is_kubelet_config_file_enabled}

-- The two statements on `kubeletFlags`.
unfoldable pub disable_dynamic_config : (GoMap Bool → List Text) → GoMap Text → GoMap Text
disable_dynamic_config range flags =
    let flags = delete flags (text "--dynamic-config-dir") in
    insert flags (text "--feature-gates") (
      add_feature_gate_string range (get_or flags (text "--feature-gates") [])
        (text "DynamicKubeletConfig") false)

-- `validateAndSetLinuxNodeBootstrappingConfiguration`: the configuration afterwards, or a panic.
unfoldable pub validate_and_set_linux :
    Semver
    → (GoMap Bool → List Text)
    → NodeBootstrappingConfiguration
    → Option NodeBootstrappingConfiguration
validate_and_set_linux s range config = do
  enabled ←
      is_kubelet_config_file_enabled s config.container_service config.agent_pool_profile
        config.enable_kubelet_config_file
  some (
      if enabled
      then record config {
        kubelet_config = elim config.kubelet_config [
          | none ↦ none
          | some flags ↦ some (disable_dynamic_config range flags)
        ];
      }
      else config)

-- `if config.KubeletConfig == nil { config.KubeletConfig = make(map[string]string) }`
unfoldable pub made : Option (GoMap Text) → GoMap Text
made none = []
made (some flags) = flags

-- The flags that a node of Windows needs for TLS bootstrapping.
unfoldable pub bootstrap_flags : Option (GoMap Text) → GoMap Text
bootstrap_flags flags =
    insert (insert (made flags) (text "--bootstrap-kubeconfig") (text "c:\\k\\bootstrap-config"))
      (text "--cert-dir") (text "c:\\k\\pki")

-- `IsKubeletClientTLSBootstrappingEnabled`
unfoldable pub is_kubelet_client_tls_bootstrapping_enabled : Option Text → Bool
is_kubelet_client_tls_bootstrapping_enabled token = is_some token

-- `validateAndSetWindowsNodeBootstrappingConfiguration`
unfoldable pub validate_and_set_windows :
    NodeBootstrappingConfiguration → NodeBootstrappingConfiguration
validate_and_set_windows config =
    if is_kubelet_client_tls_bootstrapping_enabled config.kubelet_client_tls_bootstrap_token
    then record config { kubelet_config = some (bootstrap_flags config.kubelet_config) }
    else config
