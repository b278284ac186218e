-- ===== src/GoMap/Laws.antt =====
-- Reads after writes of a Go map.
use agent_baker.Prelude.{◌≡◌, refl, false, [], ◌∷◌, none, some, arith, if◌then◌else◌}
use agent_baker.Text.{Text, beq}
use agent_baker.Text.Equality.{beq_iff}
use agent_baker.GoMap.{GoMap, lookup, get_or, insert, delete, IsFresh, HasUniqueKeys}

module _ {ℓ} {V : Type ℓ} where
  pub lookup-insert :
      (m : GoMap V) (k j : Text) (v : V)
      → lookup (insert m k v) j ≡ (if beq k j then some v else lookup m j)
  unfolding lookup insert
  lookup-insert [] k j v = refl
  lookup-insert ((i, w) ∷ m) k j v =
      ground (arith, beq_iff i k, beq_iff i j, beq_iff k j, lookup-insert m k j v)

  pub lookup-delete :
      (m : GoMap V) (k j : Text) → lookup (delete m k) j ≡ (if beq k j then none else lookup m j)
  unfolding lookup delete
  lookup-delete [] k j = ground arith
  lookup-delete ((i, w) ∷ m) k j =
      ground (arith, beq_iff i k, beq_iff i j, beq_iff k j, lookup-delete m k j)

  pub get_or-lookup : (m : GoMap V) (k : Text) (z v : V) → lookup m k ≡ some v → get_or m k z ≡ v
  unfolding lookup get_or
  get_or-lookup [] k z v h = ground arith
  get_or-lookup ((i, w) ∷ m) k z v h = ground (arith, get_or-lookup m k z v)

  pub get_or-insert :
      (m : GoMap V) (k j : Text) (v z : V)
      → get_or (insert m k v) j z ≡ (if beq k j then v else get_or m j z)
  unfolding get_or insert
  get_or-insert [] k j v z = refl
  get_or-insert ((i, w) ∷ m) k j v z =
      ground (arith, beq_iff i k, beq_iff i j, beq_iff k j, get_or-insert m k j v z)

  pub insert-IsFresh :
      (m : GoMap V) (k j : Text) (v : V) → IsFresh m j → beq k j ≡ false → IsFresh (insert m k v) j
  unfolding insert
  insert-IsFresh [] k j v h e = (e, tt)
  insert-IsFresh ((i, w) ∷ m) k j v h e = ground (arith, insert-IsFresh m k j v)

  pub insert-HasUniqueKeys :
      (m : GoMap V) (k : Text) (v : V) → HasUniqueKeys m → HasUniqueKeys (insert m k v)
  unfolding insert
  insert-HasUniqueKeys [] k v h = (tt, tt)
  insert-HasUniqueKeys ((i, w) ∷ m) k v h =
      ground (arith, beq_iff i k, beq_iff k i, insert-HasUniqueKeys m k v, insert-IsFresh m k i v)

  pub get_or-delete :
      (m : GoMap V) (k j : Text) (z : V)
      → get_or (delete m k) j z ≡ (if beq k j then z else get_or m j z)
  unfolding get_or delete
  get_or-delete [] k j z = ground arith
  get_or-delete ((i, w) ∷ m) k j z =
      ground (arith, beq_iff i k, beq_iff i j, beq_iff k j, get_or-delete m k j z)

  pub delete-IsFresh : (m : GoMap V) (k j : Text) → IsFresh m j → IsFresh (delete m k) j
  unfolding delete
  delete-IsFresh [] k j h = tt
  delete-IsFresh ((i, w) ∷ m) k j h = ground (arith, delete-IsFresh m k j)

  pub delete-HasUniqueKeys : (m : GoMap V) (k : Text) → HasUniqueKeys m → HasUniqueKeys (delete m k)
  unfolding delete
  delete-HasUniqueKeys [] k h = tt
  delete-HasUniqueKeys ((i, w) ∷ m) k h =
      ground (arith, delete-HasUniqueKeys m k, delete-IsFresh m k i)
