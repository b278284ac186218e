-- ===== src/Kubelet/KeyVals/Pairs.antt =====
-- The keys that `strKeyValToMap` and `strKeyValToMapBool` can produce.
use agent_baker.Prelude.{ℕ, List, [], ◌∷◌, ◌≡◌, arith, ◌==◌, All, some, inl, inr}
use mathlib.Core.Path.{subst}
use agent_baker.Text.{Text, split, trim_space}
use agent_baker.Text.Equality.{beq-cases}
use agent_baker.Text.Split.{
  Lacks, split_by-All, split_by-parts_Lacks, trim_space-All, trim_space_idem,
}
use agent_baker.GoMap.{GoMap, insert, lookup}
use agent_baker.Kubelet.KeyVals.{str_to_bool, set_pair, set_pairs, str_key_val_to_map_bool}

-- A key that survives printing and parsing: no delimiter in it, no space at its ends.
pub record IsKey (str_delim pair_delim : ℕ) (k : Text) : Type 0 where
  pub no_str_delim : Lacks (λ c. c == str_delim) k
  pub no_pair_delim : Lacks (λ c. c == pair_delim) k
  pub trimmed : trim_space k ≡ k

abbrev pub AllKeys {ℓ} : {V : Type ℓ} → (Text → Type 0) → GoMap V → Type 0
AllKeys P [] = Unit
AllKeys P ((k, v) ∷ m) = P k × AllKeys P m

module _ {ℓ} {V : Type ℓ} (P : Text → Type 0) where
  pub insert-AllKeys :
      (m : GoMap V) (k : Text) (v : V) → AllKeys P m → P k → AllKeys P (insert m k v)
  unfolding insert
  insert-AllKeys [] k v h p = (p, tt)
  insert-AllKeys ((j, w) ∷ m) k v h p = ground (arith, insert-AllKeys m k v)

  pub lookup-AllKeys : (m : GoMap V) (k : Text) {v : V} → AllKeys P m → lookup m k ≡ some v → P k
  unfolding lookup
  lookup-AllKeys [] k h e = ground arith
  lookup-AllKeys ((j, w) ∷ m) k h e = elim (beq-cases j k) [
    | inl same ↦ subst P same h.0
    | inr other ↦ lookup-AllKeys m k h.1 (rw other at e)
  ]

module _ {ℓ} {V : Type ℓ} (read : Text → V) (str_delim pair_delim : ℕ) where
  set_pair-AllKeys :
      (m : GoMap V) (parts : List Text)
      → AllKeys (IsKey str_delim pair_delim) m
      → All (Lacks (λ c. c == str_delim)) parts
      → All (Lacks (λ c. c == pair_delim)) parts
      → AllKeys (IsKey str_delim pair_delim) (set_pair read m parts)
  unfolding set_pair
  set_pair-AllKeys m [] h f g = h
  set_pair-AllKeys m (k ∷ []) h f g = h
  set_pair-AllKeys m (k ∷ v ∷ []) h f g = insert-AllKeys _ m (trim_space k) _ h (record {
    no_str_delim = trim_space-All _ k f.0;
    no_pair_delim = trim_space-All _ k g.0;
    trimmed = trim_space_idem k;
  })
  set_pair-AllKeys m (k ∷ v ∷ w ∷ r) h f g = h

  set_pairs-AllKeys :
      (m : GoMap V) (pairs : List Text)
      → AllKeys (IsKey str_delim pair_delim) m
      → All (Lacks (λ c. c == str_delim)) pairs
      → AllKeys (IsKey str_delim pair_delim) (set_pairs read pair_delim m pairs)
  unfolding set_pairs split
  set_pairs-AllKeys m [] h f = h
  set_pairs-AllKeys m (pair ∷ pairs) h (f, fs) =
      set_pairs-AllKeys (set_pair read m (split pair pair_delim)) pairs
        (set_pair-AllKeys m (split pair pair_delim) h (split_by-All _ _ pair f)
          (split_by-parts_Lacks _ pair))
        fs

-- Every key read by `strKeyValToMapBool` lacks both delimiters and is trimmed.
pub str_key_val_to_map_bool-AllKeys :
    (str : Text) (str_delim pair_delim : ℕ)
    → AllKeys (IsKey str_delim pair_delim) (str_key_val_to_map_bool str str_delim pair_delim)
unfolding str_key_val_to_map_bool split
str_key_val_to_map_bool-AllKeys str str_delim pair_delim =
    set_pairs-AllKeys str_to_bool str_delim pair_delim [] (split str str_delim) tt
      (split_by-parts_Lacks _ str)
