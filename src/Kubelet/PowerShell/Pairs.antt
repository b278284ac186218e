-- ===== src/Kubelet/PowerShell/Pairs.antt =====
-- The lists of quoted pairs: how they are joined, and the order of the map.
use agent_baker.Prelude.{
  ℕ, List, [], ◌∷◌, ◌++◌, map, ◌≡◌, refl, ap, ◌∙◌, sym, arith, append_assoc, append-nil, some,
  length, length-append, inl, inr,
}
use agent_baker.Text.{Text, text, join, concat, trim_suffix, sort_strings}
use agent_baker.Text.Equality.{beq_refl, beq-cases}
use mathlib.Core.Path.{fun_ext}
use agent_baker.GoMap.{GoMap, keys, lookup, HasUniqueKeys}
use agent_baker.GoMap.Keys.{get_or_lem, sort_strings-keys_same}
use agent_baker.Datamodel.Bootstrapping.{NodeBootstrappingConfiguration}
use agent_baker.Kubelet.PowerShell.{
  quote_pair, get_ordered_escaped_key_vals_string, get_ordered_kubelet_config_string_for_powershell,
}

longer : (x c : ℕ) (s p : Text) → (x ∷ (s ++ c ∷ p)) ≡ (c ∷ p) → ⊥
longer x c s p e =
    let lengths : length (x ∷ (s ++ c ∷ p)) ≡ length (c ∷ p) = ap length e in
    omega (arith, length-append s (c ∷ p), lengths)

trim_suffix-append : (s : Text) (c : ℕ) (p : Text) → trim_suffix (s ++ c ∷ p) (c ∷ p) ≡ s
unfolding trim_suffix
trim_suffix-append [] c p = rw (beq_refl (c ∷ p)) refl
trim_suffix-append (x ∷ s) c p = elim (beq-cases (x ∷ (s ++ c ∷ p)) (c ∷ p)) [
  | inl same ↦ absurd (longer x c s p same)
  | inr other ↦ rw (other, trim_suffix-append s c p) refl
]

-- Each text followed by the separator is the texts joined, and one separator more.
concat-join :
    (f : Text → Text) (sep k : Text) (ks : List Text)
    → concat (map (λ key. f key ++ sep) (k ∷ ks)) ≡ join (map f (k ∷ ks)) sep ++ sep
unfolding concat join
concat-join f sep k [] = append-nil (f k ++ sep)
concat-join f sep k (j ∷ ks) =
    let joined = join (map f (j ∷ ks)) sep in
    append_assoc (f k) sep (concat (map (λ key. f key ++ sep) (j ∷ ks)))
    ∙ ap (λ t. f k ++ (sep ++ t)) (concat-join f sep j ks)
    ∙ sym
        (append_assoc (f k) (sep ++ joined) sep ∙ ap (λ t. f k ++ t) (append_assoc sep joined sep))

trim_last :
    (f : Text → Text) (c : ℕ) (sep : Text) (ks : List Text)
    → trim_suffix (concat (map (λ key. f key ++ c ∷ sep) ks)) (c ∷ sep) ≡ join (map f ks) (c ∷ sep)
trim_last f c sep [] = unfold trim_suffix concat join in refl
trim_last f c sep (k ∷ ks) =
    rw (concat-join f (c ∷ sep) k ks) (trim_suffix-append (join (map f (k ∷ ks)) (c ∷ sep)) c sep)

-- The function writes the quoted pairs in the order of their keys, joined by a comma and a space,
-- with nothing after the last one.
pub get_ordered_escaped_key_vals_string_lem :
    (config : GoMap Text)
    → get_ordered_escaped_key_vals_string config
      ≡ join (map (quote_pair config) (sort_strings (keys config))) (text ", ")
unfolding get_ordered_escaped_key_vals_string text
get_ordered_escaped_key_vals_string_lem config =
    trim_last (quote_pair config) b',' (b' ' ∷ []) (sort_strings (keys config))

module _ (k k' : GoMap Text) (unique : HasUniqueKeys k) (unique' : HasUniqueKeys k')
    (same : (key : Text) → lookup k key ≡ lookup k' key) where
  quote_pair_same : (key : Text) → quote_pair k key ≡ quote_pair k' key
  unfolding quote_pair
  quote_pair_same key = rw (get_or_lem k key [], get_or_lem k' key [], same key)

  written_same :
      concat (map (λ key. quote_pair k key ++ text ", ") (sort_strings (keys k)))
      ≡ concat (map (λ key. quote_pair k' key ++ text ", ") (sort_strings (keys k')))
  written_same = rw (
    sort_strings-keys_same k k' unique unique' same,
    fun_ext {f = quote_pair k} {g = quote_pair k'} quote_pair_same,
  )

  -- Neither list of pairs depends on the order in which its map is visited: two lists that stand for
  -- one map, each key once, give one text, as settings and as the kubelet's flags for PowerShell.
  pub get_ordered_escaped_key_vals_string_order :
      (config : NodeBootstrappingConfiguration)
      → (get_ordered_escaped_key_vals_string k ≡ get_ordered_escaped_key_vals_string k')
        × (get_ordered_kubelet_config_string_for_powershell
              (record config { kubelet_config = some k })
            ≡ get_ordered_kubelet_config_string_for_powershell
                (record config { kubelet_config = some k' }))
  unfolding get_ordered_escaped_key_vals_string get_ordered_kubelet_config_string_for_powershell
  get_ordered_escaped_key_vals_string_order config = (rw written_same refl, rw written_same refl)
