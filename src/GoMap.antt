-- ===== src/GoMap.antt =====
-- Go maps with string keys, as association lists: the list's order stands for an order in which
-- `range` may visit the map. A `nil` map reads like an empty one.
pub mod Laws
pub mod Keys
use agent_baker.Prelude.{false, ◌≡◌, List, [], ◌∷◌, Option, none, some, if◌then◌else◌}
use agent_baker.Text.{Text, beq}

abbrev pub GoMap {ℓ} : Type ℓ → Type ℓ
GoMap V = List (Text × V)

module _ {ℓ} {V : Type ℓ} where
  -- `v, ok := m[k]`
  unfoldable pub lookup : GoMap V → Text → Option V
  lookup [] k = none
  lookup ((j, v) ∷ m) k = if beq j k then some v else lookup m k

  -- `m[k]`, with the zero value for a missing key
  unfoldable pub get_or : GoMap V → Text → V → V
  get_or [] k zero_value = zero_value
  get_or ((j, v) ∷ m) k zero_value = if beq j k then v else get_or m k zero_value

  -- `m[k] = v`
  unfoldable pub insert : GoMap V → Text → V → GoMap V
  insert [] k v = (k, v) ∷ []
  insert ((j, w) ∷ m) k v = if beq j k then (j, v) ∷ m else (j, w) ∷ insert m k v

  -- `delete(m, k)`
  unfoldable pub delete : GoMap V → Text → GoMap V
  delete [] k = []
  delete ((j, w) ∷ m) k = if beq j k then delete m k else (j, w) ∷ delete m k

  -- the keys in the order of `range`
  unfoldable pub keys : GoMap V → List Text
  keys [] = []
  keys ((j, w) ∷ m) = j ∷ keys m

  abbrev pub IsFresh : GoMap V → Text → Type 0
  IsFresh [] k = Unit
  IsFresh ((j, w) ∷ m) k = (beq j k ≡ false) × IsFresh m k

  -- Every key stands once: what a Go map gives, and what its operations keep.
  abbrev pub HasUniqueKeys : GoMap V → Type 0
  HasUniqueKeys [] = Unit
  HasUniqueKeys ((j, w) ∷ m) = IsFresh m j × HasUniqueKeys m
