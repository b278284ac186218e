-- ===== src/Kubelet/CommandLine/Order.antt =====
-- The command line of the kubelet: its flags, and the order in which Go visits the map of flags.
use agent_baker.Prelude.{Bool, Option, not, ◌&&◌, ◌||◌, ◌≡◌, some, is_some, ap, []}
use mathlib.Core.Path.{fun_ext}
use agent_baker.Prelude.Panic.{◌>>=◌}
use agent_baker.Text.{Text, string_in_slice}
use agent_baker.Text.Sort.{
  IsSorted, IsSorted-ext, string_in_slice-sort_strings, sort_strings-IsSorted,
}
use agent_baker.GoMap.{GoMap, lookup, keys, HasUniqueKeys}
use agent_baker.GoMap.Keys.{
  string_in_slice-keys, get_or_lem, keys-IsUnique, string_in_slice-keep, keep-IsUnique,
}
use agent_baker.Datamodel.Cluster.{AgentPoolProfile, ContainerService}
use agent_baker.Versions.Semver.{Semver}
use agent_baker.Kubelet.CommandLine.{
  is_translated, is_kubelet_config_file_enabled, format_flag, ordered_flags,
  get_ordered_kubelet_config_flag_string,
}

-- A flag is on the command line exactly if it is given and, where the configuration file is in
-- use, is not one of those that the file takes over.
pub string_in_slice-ordered_flags :
    (file_enabled : Bool) (k : GoMap Text) (key : Text)
    → string_in_slice key (ordered_flags file_enabled k)
      ≡ (is_some (lookup k key) && (not file_enabled || not (is_translated key)))
unfolding ordered_flags
string_in_slice-ordered_flags file_enabled k key =
    rw (string_in_slice-sort_strings, string_in_slice-keep, string_in_slice-keys)

ordered_flags-IsSorted :
    (file_enabled : Bool) (k : GoMap Text)
    → HasUniqueKeys k
    → IsSorted (ordered_flags file_enabled k)
unfolding ordered_flags
ordered_flags-IsSorted file_enabled k h =
    sort_strings-IsSorted _ (keep-IsUnique _ (keys k) (keys-IsUnique k h))

abbrev IsSame : GoMap Text → GoMap Text → Type 0
IsSame k k' = (key : Text) → lookup k key ≡ lookup k' key

module _ (k k' : GoMap Text) (unique : HasUniqueKeys k) (unique' : HasUniqueKeys k')
    (same : IsSame k k') where
  ordered_flags_same :
      (file_enabled : Bool) → ordered_flags file_enabled k ≡ ordered_flags file_enabled k'
  ordered_flags_same file_enabled =
      IsSorted-ext _ _ (ordered_flags-IsSorted file_enabled k unique)
        (ordered_flags-IsSorted file_enabled k' unique')
        λ key. rw (
          string_in_slice-ordered_flags file_enabled k key,
          string_in_slice-ordered_flags file_enabled k' key,
          same key,
        )

  format_flag_same : (key : Text) → format_flag k key ≡ format_flag k' key
  unfolding format_flag
  format_flag_same key = rw (get_or_lem k key [], get_or_lem k' key [], same key)

  -- The text does not depend on the order in which the map of flags is visited: two lists that
  -- stand for one map, each key once, give one text, also where the function panics.
  pub get_ordered_kubelet_config_flag_string_order :
      (s : Semver) (cs : Option ContainerService) (profile : Option AgentPoolProfile)
      (toggle : Bool)
      → get_ordered_kubelet_config_flag_string s (some k) cs profile toggle
        ≡ get_ordered_kubelet_config_flag_string s (some k') cs profile toggle
  unfolding get_ordered_kubelet_config_flag_string
  get_ordered_kubelet_config_flag_string_order s cs profile toggle =
      ap
        (λ (f : Bool → Text).
          is_kubelet_config_file_enabled s cs profile toggle >>= λ b. some (f b))
        (fun_ext λ b. rw (ordered_flags_same b, fun_ext format_flag_same))
