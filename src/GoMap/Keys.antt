-- ===== src/GoMap/Keys.antt =====
-- The keys of a Go map, and maps that agree on every key.
use agent_baker.Prelude.{
  Bool, false, ◌&&◌, ◌≡◌, refl, List, [], ◌∷◌, none, some, is_some, arith, keep,
}
use agent_baker.Text.{Text, string_in_slice, sort_strings}
use agent_baker.Text.Equality.{beq_iff}
use agent_baker.Text.Sort.{
  IsUnique, IsSorted-ext, sort_strings-IsSorted, string_in_slice-sort_strings,
}
use agent_baker.GoMap.{GoMap, lookup, get_or, keys, IsFresh, HasUniqueKeys}

module _ {ℓ} {V : Type ℓ} where
  pub string_in_slice-keys :
      (m : GoMap V) (a : Text) → string_in_slice a (keys m) ≡ is_some (lookup m a)
  unfolding string_in_slice keys lookup
  string_in_slice-keys [] a = refl
  string_in_slice-keys ((k, v) ∷ m) a = ground (arith, string_in_slice-keys m a)

  pub get_or_lem :
      (m : GoMap V) (a : Text) (z : V) → get_or m a z ≡ elim (lookup m a) [ none ↦ z | some v ↦ v ]
  unfolding get_or lookup
  get_or_lem [] a z = refl
  get_or_lem ((k, v) ∷ m) a z = ground (arith, get_or_lem m a z)

  keys-fresh : (m : GoMap V) (a : Text) → IsFresh m a → string_in_slice a (keys m) ≡ false
  unfolding string_in_slice keys
  keys-fresh [] a h = refl
  keys-fresh ((k, v) ∷ m) a (e, h) = rw e (keys-fresh m a h)

  pub keys-IsUnique : (m : GoMap V) → HasUniqueKeys m → IsUnique (keys m)
  unfolding keys
  keys-IsUnique [] h = tt
  keys-IsUnique ((k, v) ∷ m) (f, h) = (keys-fresh m k f, keys-IsUnique m h)

-- Two lists that stand for one map, each key once.
module _ {ℓ} {V : Type ℓ} (m m' : GoMap V) (unique : HasUniqueKeys m) (unique' : HasUniqueKeys m')
    (same : (key : Text) → lookup m key ≡ lookup m' key) where
  pub sort_strings-keys_same : sort_strings (keys m) ≡ sort_strings (keys m')
  sort_strings-keys_same =
      IsSorted-ext _ _ (sort_strings-IsSorted _ (keys-IsUnique m unique))
        (sort_strings-IsSorted _ (keys-IsUnique m' unique'))
        λ key. rw (
          string_in_slice-sort_strings key (keys m),
          string_in_slice-sort_strings key (keys m'),
          string_in_slice-keys m key,
          string_in_slice-keys m' key,
          same key,
        )

pub string_in_slice-keep :
    (p : Text → Bool) (a : Text) (xs : List Text)
    → string_in_slice a (keep p xs) ≡ (string_in_slice a xs && p a)
unfolding string_in_slice keep
string_in_slice-keep p a [] = refl
string_in_slice-keep p a (x ∷ xs) = ground (arith, string_in_slice-keep p a xs, beq_iff x a)

pub keep-IsUnique : (p : Text → Bool) (xs : List Text) → IsUnique xs → IsUnique (keep p xs)
unfolding keep
keep-IsUnique p [] h = tt
keep-IsUnique p (x ∷ xs) (f, h) = ground (arith, keep-IsUnique p xs h, string_in_slice-keep p x xs)
