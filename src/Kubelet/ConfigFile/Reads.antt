-- ===== src/Kubelet/ConfigFile/Reads.antt =====
-- What the configuration file of the kubelet takes from the flags.
use agent_baker.Prelude.{
  Bool, true, false, List, [], ◌∷◌, ◌≡◌, Option, none, some, arith, All, ap, if◌then◌else◌, not,
  ◌&&◌, ◌||◌,
}
use agent_baker.Text.{Text, text, is_empty, beq, string_in_slice}
use agent_baker.Text.Equality.{beq_iff}
use agent_baker.GoMap.{GoMap, lookup, insert}
use agent_baker.GoMap.Laws.{lookup-insert, get_or-insert}
use agent_baker.Datamodel.Os.{CustomKubeletConfig}
use agent_baker.Kubelet.CommandLine.{is_translated, ordered_flags}
use agent_baker.Kubelet.CommandLine.Order.{string_in_slice-ordered_flags}
use agent_baker.Kubelet.ConfigFile.{
  flag, simple_values, authentication, from_flags, kubelet_config, set_custom, enable_if_set,
}

-- The flags that `GetKubeletConfigFileContent` looks up.
unfoldable pub read_flags : List Text
read_flags =
    text "--address"
    ∷ text "--pod-manifest-path"
    ∷ text "--authorization-mode"
    ∷ text "--cluster-dns"
    ∷ text "--cgroups-per-qos"
    ∷ text "--tls-cert-file"
    ∷ text "--tls-private-key-file"
    ∷ text "--tls-cipher-suites"
    ∷ text "--cluster-domain"
    ∷ text "--max-pods"
    ∷ text "--node-status-update-frequency"
    ∷ text "--image-gc-high-threshold"
    ∷ text "--image-gc-low-threshold"
    ∷ text "--event-qps"
    ∷ text "--pod-max-pids"
    ∷ text "--enforce-node-allocatable"
    ∷ text "--streaming-connection-idle-timeout"
    ∷ text "--rotate-certificates"
    ∷ text "--read-only-port"
    ∷ text "--protect-kernel-defaults"
    ∷ text "--resolv-conf"
    ∷ text "--client-ca-file"
    ∷ text "--authentication-token-webhook"
    ∷ text "--anonymous-auth"
    ∷ text "--eviction-hard"
    ∷ text "--feature-gates"
    ∷ text "--system-reserved"
    ∷ text "--kube-reserved"
    ∷ []

abbrev Agree : GoMap Text → GoMap Text → List Text → Type 0
Agree k k' = All (λ key. flag k key ≡ flag k' key)

from_flags_same : (k k' : GoMap Text) → Agree k k' read_flags → from_flags k ≡ from_flags k'
unfolding from_flags simple_values authentication read_flags
from_flags_same k k' h = cc

insert-Agree :
    (k : GoMap Text) (key value : Text) (flags : List Text)
    → string_in_slice key flags ≡ false
    → Agree (insert k key value) k flags
unfolding string_in_slice flag
insert-Agree k key value [] h = tt
insert-Agree k key value (f ∷ flags) h = (
  ground (arith, get_or-insert k key f value [], beq_iff f key, beq_iff key f),
  insert-Agree k key value flags (ground arith),
)

-- The file depends on the flags that it reads and on nothing else in the map of flags.
kubelet_config-read_flags :
    (k k' : GoMap Text) (custom_kc : Option CustomKubeletConfig)
    → Agree k k' read_flags
    → kubelet_config k custom_kc ≡ kubelet_config k' custom_kc
unfolding kubelet_config
kubelet_config-read_flags k k' none h = from_flags_same k k' h
kubelet_config-read_flags k k' (some custom_kc) h =
    ap (set_custom custom_kc) (from_flags_same k k' h)

-- Where the configuration file is in use, the value of a flag that the command line leaves out as
-- taken over by the file, and that the file does not read, reaches the kubelet in neither way.
pub kubelet_config-lost_flag :
    (k : GoMap Text) (custom_kc : Option CustomKubeletConfig) (key value : Text)
    → is_translated key ≡ true
    → string_in_slice key read_flags ≡ false
    → (kubelet_config (insert k key value) custom_kc ≡ kubelet_config k custom_kc)
      × (string_in_slice key (ordered_flags true (insert k key value)) ≡ false)
kubelet_config-lost_flag k custom_kc key value translated unread = (
  kubelet_config-read_flags (insert k key value) k custom_kc
      (insert-Agree k key value read_flags unread),
  rw (string_in_slice-ordered_flags true (insert k key value) key, translated) ground arith,
)

lookup-enable :
    (name gate setting : Text) (gates : GoMap Bool)
    → lookup (enable_if_set setting name gates) gate
      ≡ (if beq name gate && not (is_empty setting) then some true else lookup gates gate)
unfolding enable_if_set
lookup-enable name gate [] gates = ground arith
lookup-enable name gate (c ∷ s) gates = rw (lookup-insert gates name gate true) ground arith

-- A custom configuration turns on the gate of a policy or quota period that it sets, and leaves
-- every other gate as the flags have it.
pub kubelet_config-feature_gates :
    (k : GoMap Text) (custom_kc : CustomKubeletConfig) (gate : Text)
    → lookup (kubelet_config k (some custom_kc)).feature_gates gate ≡ (
        if (beq (text "TopologyManager") gate && not (is_empty custom_kc.topology_manager_policy))
          || (beq (text "CustomCPUCFSQuotaPeriod") gate
              && not (is_empty custom_kc.cpu_cfs_quota_period))
        then some true
        else lookup (kubelet_config k none).feature_gates gate)
unfolding kubelet_config set_custom
kubelet_config-feature_gates k custom_kc gate =
    rw
      (
        lookup-enable (text "TopologyManager") gate custom_kc.topology_manager_policy,
        lookup-enable (text "CustomCPUCFSQuotaPeriod") gate custom_kc.cpu_cfs_quota_period,
      )
      ground arith
