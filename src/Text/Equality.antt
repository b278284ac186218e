-- ===== src/Text/Equality.antt =====
-- `==` on strings decides equality.
use agent_baker.Prelude.{true, false, [], ◌∷◌, ◌≡◌, refl, ◌↔◌, ◌⊎◌, arith}
use agent_baker.Text.{Text, beq, is_empty, equal_fold, to_lower}

pub beq_iff : (a b : Text) → (beq a b ≡ true) ↔ (a ≡ b)
unfolding beq
beq_iff [] [] = ground arith
beq_iff [] (y ∷ b) = ground arith
beq_iff (x ∷ a) [] = ground arith
beq_iff (x ∷ a) (y ∷ b) = ground (arith, beq_iff a b)

pub beq_refl : (a : Text) → beq a a ≡ true
beq_refl a = (beq_iff a a).1 refl

pub beq_comm : (a b : Text) → beq a b ≡ beq b a
beq_comm a b = ground (arith, beq_iff a b, beq_iff b a)

-- Two texts are equal or differ, with the outcome of the test.
pub beq-cases : (a b : Text) → (a ≡ b) ⊎ (beq a b ≡ false)
beq-cases a b = ground (arith, beq_iff a b)

pub is_empty_iff : (s : Text) → (is_empty s ≡ true) ↔ (s ≡ [])
is_empty_iff [] = ground arith
is_empty_iff (x ∷ s) = ground arith

-- `EqualFold` is an equivalence.
pub equal_fold_iff : (a b : Text) → (equal_fold a b ≡ true) ↔ (to_lower a ≡ to_lower b)
unfolding equal_fold
equal_fold_iff a b = beq_iff (to_lower a) (to_lower b)
