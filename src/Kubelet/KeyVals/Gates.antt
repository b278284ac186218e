-- ===== src/Kubelet/KeyVals/Gates.antt =====
-- `addFeatureGateString`: the gates of its result, read back.
use agent_baker.Prelude.{
  Bool, true, false, List, [], ◌∷◌, map, ◌≡◌, refl, arith, ◌==◌, All, some, none, if◌then◌else◌,
  inl, inr, Option-cases, ap, All-append,
}
use agent_baker.Text.{Text, text, beq, split, trim_space, join, format_bool, string_in_slice}
use agent_baker.Text.Equality.{beq_iff, beq_refl, beq-cases}
use agent_baker.Text.Split.{Lacks, split_by-append, split_by-Lacks, split-join}
use agent_baker.GoMap.Keys.{string_in_slice-keys}
use agent_baker.GoMap.{GoMap, keys, insert, lookup, get_or}
use agent_baker.GoMap.Laws.{lookup-insert, get_or-lookup}
use agent_baker.Kubelet.KeyVals.{
  str_to_bool, set_pair, set_pairs, str_key_val_to_map_bool, format_gate, add_feature_gate_string,
}
use agent_baker.Kubelet.KeyVals.Pairs.{
  IsKey, AllKeys, insert-AllKeys, lookup-AllKeys, str_key_val_to_map_bool-AllKeys,
}

-- What Go promises of `range`: it visits the keys of the map, each of them, and nothing else.
pub record Visits {ℓ} {V : Type ℓ} (m : GoMap V) (order : List Text) : Type ℓ where
  pub each : (k : Text) (v : V) → lookup m k ≡ some v → string_in_slice k order ≡ true
  pub only : All (λ k. (v : V) × (lookup m k ≡ some v)) order

abbrev pub IsGateKey : Text → Type 0
IsGateKey = IsKey b',' b'='

format_bool-Lacks :
    (v : Bool) → Lacks (λ c. c == b'=') (format_bool v) × Lacks (λ c. c == b',') (format_bool v)
unfolding format_bool text
format_bool-Lacks true = ground arith
format_bool-Lacks false = ground arith

str_to_bool-format_bool : (v : Bool) → str_to_bool (trim_space (format_bool v)) ≡ v
unfolding str_to_bool trim_space format_bool
str_to_bool-format_bool true = refl
str_to_bool-format_bool false = refl

abbrev set_gate : GoMap Bool → Text → GoMap Bool
set_gate m pair = set_pair str_to_bool m (split pair b'=')

set_gate-format_gate :
    (gates m : GoMap Bool) (k : Text)
    → IsGateKey k
    → set_gate m (format_gate gates k) ≡ insert m k (get_or gates k false)
unfolding set_pair format_gate split
set_gate-format_gate gates m k h =
    let v = get_or gates k false in
    rw (
      split_by-append (λ c. c == b'=') k (format_bool v) b'=' h.no_pair_delim refl,
      split_by-Lacks (λ c. c == b'=') (format_bool v) (format_bool-Lacks v).0,
      h.trimmed,
      str_to_bool-format_bool v,
    )

format_gate-Lacks :
    (gates : GoMap Bool) (k : Text) → IsGateKey k → Lacks (λ c. c == b',') (format_gate gates k)
unfolding format_gate
format_gate-Lacks gates k h =
    All-append _ k _ h.no_str_delim (refl, (format_bool-Lacks (get_or gates k false)).1)

format_gates-Lacks :
    (gates : GoMap Bool) (ks : List Text)
    → All IsGateKey ks
    → All (Lacks (λ c. c == b',')) (map (format_gate gates) ks)
format_gates-Lacks gates [] h = tt
format_gates-Lacks gates (k ∷ ks) (h, hs) =
    (format_gate-Lacks gates k h, format_gates-Lacks gates ks hs)

-- Reading the printed gates back sets every visited key to its value.
lookup-set_pairs :
    (gates m : GoMap Bool) (ks : List Text) (j : Text)
    → All IsGateKey ks
    → lookup (set_pairs str_to_bool b'=' m (map (format_gate gates) ks)) j
      ≡ (if string_in_slice j ks then some (get_or gates j false) else lookup m j)
unfolding set_pairs string_in_slice
lookup-set_pairs gates m [] j _ = refl
lookup-set_pairs gates m (k ∷ ks) j (h, hs) =
    rw (set_gate-format_gate gates m k h, set_pairs)
      (ground (
        arith,
        lookup-set_pairs gates (insert m k (get_or gates k false)) ks j hs,
        lookup-insert m k j (get_or gates k false),
        beq_iff k j,
      ))

only-IsGateKey :
    (m : GoMap Bool) (ks : List Text)
    → AllKeys IsGateKey m
    → All (λ k. (v : Bool) × (lookup m k ≡ some v)) ks
    → All IsGateKey ks
only-IsGateKey m [] h _ = tt
only-IsGateKey m (k ∷ ks) h ((v, e), es) =
    (lookup-AllKeys IsGateKey m k h e, only-IsGateKey m ks h es)

only-string_in_slice :
    (m : GoMap Bool) (ks : List Text) (j : Text)
    → All (λ k. (v : Bool) × (lookup m k ≡ some v)) ks
    → lookup m j ≡ none
    → string_in_slice j ks ≡ false
unfolding string_in_slice
only-string_in_slice m [] j _ e = refl
only-string_in_slice m (k ∷ ks) j ((v, f), es) e = elim (beq-cases k j) [
  | inl same ↦ absurd (cc (ap (lookup m) same))
  | inr other ↦ rw other (only-string_in_slice m ks j es e)
]

-- Printing the visited keys and reading the text back gives the same map.
reparse :
    (gates : GoMap Bool) (ks : List Text) (j : Text)
    → AllKeys IsGateKey gates
    → Visits gates ks
    → lookup (str_key_val_to_map_bool (join (map (format_gate gates) ks) (b',' ∷ [])) b',' b'=') j
      ≡ lookup gates j
unfolding str_key_val_to_map_bool string_in_slice
reparse gates [] j h v = elim (Option-cases (lookup gates j)) [
  | inl e ↦ rw e (unfold split join lookup in refl)
  | inr (b, e) ↦ absurd (cc (v.each j b e))
]
reparse gates (k ∷ ks) j h v =
    let good = only-IsGateKey gates (k ∷ ks) h v.only in
    let lacks = format_gates-Lacks gates (k ∷ ks) good in
    rw
      (
        split-join b',' (format_gate gates k) (map (format_gate gates) ks) lacks.0 lacks.1,
        lookup-set_pairs gates [] (k ∷ ks) j good,
      )
      (elim (Option-cases (lookup gates j)) [
        | inl e ↦ rw (only-string_in_slice gates (k ∷ ks) j v.only e, e) (unfold lookup in refl)
        | inr (b, e) ↦ rw (v.each j b e, e, get_or-lookup gates j false b e)
      ])

-- For a key without a delimiter in it or a space at its ends: reading the rewritten text gives the
-- new value for the key and the old one for every other gate, whatever text was given and in
-- whatever order Go visits the map, so long as it visits each key and nothing else.
pub lookup-add_feature_gate_string :
    (range : GoMap Bool → List Text) (feature_gates key : Text) (value : Bool) (gate : Text)
    → IsGateKey key
    → ((m : GoMap Bool) → Visits m (range m))
    → lookup
        (str_key_val_to_map_bool (add_feature_gate_string range feature_gates key value) b',' b'=')
        gate
      ≡ (if beq key gate
          then some value
          else lookup (str_key_val_to_map_bool feature_gates b',' b'=') gate)
unfolding add_feature_gate_string
lookup-add_feature_gate_string range feature_gates key value gate h visits =
    let gates = str_key_val_to_map_bool feature_gates b',' b'=' in
    rw
      (reparse (insert gates key value) (range (insert gates key value)) gate
        (insert-AllKeys IsGateKey gates key value
          (str_key_val_to_map_bool-AllKeys feature_gates b',' b'=') h)
        (visits _))
      (lookup-insert gates key gate value)

All-of :
    (P : Text → Type 0) (xs : List Text)
    → ((x : Text) → string_in_slice x xs ≡ true → P x)
    → All P xs
unfolding string_in_slice
All-of P [] h = tt
All-of P (x ∷ xs) h =
    (h x (ground (arith, beq_refl x)), All-of P xs (λ y e. h y (ground (arith, e))))

missing_key :
    (m : GoMap Bool) (k : Text) → lookup m k ≡ none → string_in_slice k (keys m) ≡ true → ⊥
missing_key m k e h = ground (arith, string_in_slice-keys m k)

-- One order that Go may choose: that of the list.
pub keys-Visits : (m : GoMap Bool) → Visits m (keys m)
keys-Visits m = record {
  each = λ k v e. rw (string_in_slice-keys m k, e) refl;
  only = All-of _ (keys m) λ k e. elim (Option-cases (lookup m k)) [
    | inl missing ↦ absurd (missing_key m k missing e)
    | inr found ↦ found
  ];
}
