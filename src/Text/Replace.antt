-- ===== src/Text/Replace.antt =====
-- Replacing one byte, and the last byte of a text.
use agent_baker.Prelude.{
  ℕ, Bool, false, ◌&&◌, ==_iff, [], ◌∷◌, ◌++◌, ◌≡◌, refl, arith, ◌==◌, if◌then◌else◌, map,
  Bool-cases, inl, inr,
}
use agent_baker.Text.{Text, beq, has_prefix, has_suffix, replace_all, replace_from}

-- Replacing one byte by another is done byte by byte.
pub replace_all-byte :
    (s : Text) (old new : ℕ)
    → replace_all s (old ∷ []) (new ∷ []) ≡ map (λ c. if c == old then new else c) s
unfolding replace_all replace_from has_prefix
replace_all-byte [] old new = refl
replace_all-byte (c ∷ s) old new = elim (Bool-cases (c == old)) [
  | inl e ↦ rw (replace_from, e, replace_all-byte s old new) refl
  | inr e ↦ ground (arith, replace_all-byte s old new)
]

pub has_suffix-last : (s : Text) (z c : ℕ) → has_suffix (s ++ z ∷ []) (c ∷ []) ≡ (z == c)
unfolding has_suffix beq
has_suffix-last [] z c = ground arith
has_suffix-last (x ∷ []) z c = ground arith
has_suffix-last (x ∷ y ∷ s) z c = ground (arith, has_suffix-last (y ∷ s) z c)

-- A text put in the place of each byte.
abbrev pub each : (ℕ → Text) → Text → Text
each f [] = []
each f (c ∷ s) = f c ++ each f s

abbrev pub substitute : ℕ → Text → ℕ → Text
substitute old new c = if c == old then new else c ∷ []

-- Replacing one byte by a text is done byte by byte.
pub replace_all-each :
    (s : Text) (old : ℕ) (new : Text) → replace_all s (old ∷ []) new ≡ each (substitute old new) s
unfolding replace_all replace_from has_prefix
replace_all-each [] old new = refl
replace_all-each (c ∷ s) old new = elim (Bool-cases (c == old)) [
  | inl e ↦ rw (replace_from, e, replace_all-each s old new)
  | inr e ↦ rw (replace_from, e, replace_all-each s old new)
]

abbrev pub begins_with : ℕ → Text → Bool
begins_with b [] = false
begins_with b (c ∷ s) = c == b

pub replace_all-pair :
    (a b : ℕ) (new t : Text)
    → replace_all (a ∷ b ∷ t) (a ∷ b ∷ []) new ≡ new ++ replace_all t (a ∷ b ∷ []) new
unfolding replace_all replace_from has_prefix
replace_all-pair a b new t = rw (replace_from, (==_iff a a).1 refl, (==_iff b b).1 refl)

pub replace_all-no_pair :
    (a b : ℕ) (new : Text) (c : ℕ) (t : Text)
    → (c == a && begins_with b t) ≡ false
    → replace_all (c ∷ t) (a ∷ b ∷ []) new ≡ c ∷ replace_all t (a ∷ b ∷ []) new
unfolding replace_all replace_from has_prefix
replace_all-no_pair a b new c [] h = ground (arith, h)
replace_all-no_pair a b new c (d ∷ t) h = ground (arith, h)
