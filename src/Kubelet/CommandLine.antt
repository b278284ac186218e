-- ===== src/Kubelet/CommandLine.antt =====
-- pkg/agent/utils.go: which kubelet flags go to the command line and which to the configuration
-- file, and what is done to the flags before (baker.go, validateAndSet…).
pub mod Order
use agent_baker.Prelude.{
  Bool, true, false, not, ◌&&◌, ◌||◌, List, [], ◌∷◌, ◌++◌, map, Option, none, some, is_some, keep,
  if◌then◌else◌,
}
use agent_baker.Prelude.Panic.{◌>>=◌}
use agent_baker.Text.{Text, text, sort_strings, concat, equal_fold, string_in_slice}
use agent_baker.GoMap.{GoMap, keys, get_or, insert, delete}
use agent_baker.Datamodel.Kubernetes.{OrchestratorProfile}
use agent_baker.Datamodel.Cluster.{AgentPoolProfile, ContainerService}
use agent_baker.Versions.Semver.{Semver, is_kubernetes_version_ge}
use agent_baker.Kubelet.KeyVals.{add_feature_gate_string}

-- `TranslatedKubeletConfigFlags`: every value in the map is true.
abbrev pub translated_kubelet_config_flags : List Text
translated_kubelet_config_flags =
    text "--address"
    ∷ text "--anonymous-auth"
    ∷ text "--client-ca-file"
    ∷ text "--authentication-token-webhook"
    ∷ text "--authorization-mode"
    ∷ text "--pod-manifest-path"
    ∷ text "--cluster-dns"
    ∷ text "--cgroups-per-qos"
    ∷ text "--tls-cert-file"
    ∷ text "--tls-private-key-file"
    ∷ text "--tls-cipher-suites"
    ∷ text "--cluster-domain"
    ∷ text "--max-pods"
    ∷ text "--eviction-hard"
    ∷ text "--node-status-update-frequency"
    ∷ text "--image-gc-high-threshold"
    ∷ text "--image-gc-low-threshold"
    ∷ text "--event-qps"
    ∷ text "--pod-max-pids"
    ∷ text "--enforce-node-allocatable"
    ∷ text "--streaming-connection-idle-timeout"
    ∷ text "--rotate-certificates"
    ∷ text "--read-only-port"
    ∷ text "--feature-gates"
    ∷ text "--protect-kernel-defaults"
    ∷ text "--resolv-conf"
    ∷ text "--system-reserved"
    ∷ text "--kube-reserved"
    ∷ text "--cpu-manager-policy"
    ∷ text "--cpu-cfs-quota"
    ∷ text "--cpu-cfs-quota-period"
    ∷ text "--topology-manager-policy"
    ∷ text "--allowed-unsafe-sysctls"
    ∷ text "--fail-swap-on"
    ∷ text "--container-log-max-size"
    ∷ text "--container-log-max-files"
    ∷ []

-- `TranslatedKubeletConfigFlags[key]`
unfoldable pub is_translated : Text → Bool
is_translated key = string_in_slice key translated_kubelet_config_flags

-- `OrchestratorProfile.IsKubernetes` of pkg/agent/datamodel/types.go
unfoldable pub is_kubernetes : OrchestratorProfile → Bool
is_kubernetes o = equal_fold o.orchestrator_type (text "Kubernetes")

-- A nil pointer that is followed is `none`, a panic. The last disjunct of `IsKubeletConfigFileEnabled`.
unfoldable pub is_file_supported : Semver → Option ContainerService → Option Bool
is_file_supported s cs = do
  container_service ← cs
  properties ← container_service.properties
  orchestrator ← properties.orchestrator_profile
  some (
      is_kubernetes orchestrator
      && is_kubernetes_version_ge s orchestrator.orchestrator_version (text "1.14.0"))

-- `IsKubeletConfigFileEnabled`
unfoldable pub is_kubelet_config_file_enabled :
    Semver → Option ContainerService → Option AgentPoolProfile → Bool → Option Bool
is_kubelet_config_file_enabled s cs none toggle = none
is_kubelet_config_file_enabled s cs (some profile) toggle =
    if is_some profile.custom_kubelet_config || is_some profile.custom_linux_os_config
    then some true
    else if toggle
    then is_file_supported s cs
    else some false

-- `fmt.Sprintf("%s=%s ", key, k[key])`
unfoldable pub format_flag : GoMap Text → Text → Text
format_flag k key = key ++ b'=' ∷ (get_or k key [] ++ b' ' ∷ [])

-- The sorted keys of `GetOrderedKubeletConfigFlagString`; `keys k` is the order of `range`.
unfoldable pub ordered_flags : Bool → GoMap Text → List Text
ordered_flags file_enabled k =
    sort_strings (keep (λ key. not file_enabled || not (is_translated key)) (keys k))

-- `GetOrderedKubeletConfigFlagString`
unfoldable pub get_ordered_kubelet_config_flag_string :
    Semver
    → Option (GoMap Text)
    → Option ContainerService
    → Option AgentPoolProfile
    → Bool
    → Option Text
get_ordered_kubelet_config_flag_string s none cs profile toggle = some []
get_ordered_kubelet_config_flag_string s (some k) cs profile toggle = do
  file_enabled ← is_kubelet_config_file_enabled s cs profile toggle
  some (concat (map (format_flag k) (ordered_flags file_enabled k)))
