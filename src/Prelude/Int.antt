-- ===== src/Prelude/Int.antt =====
-- Signed integers over the native numbers, and the bits of a float.
use Prim.Native.Nat.{ℕ, compare, Ordering}
use mathlib.Core.Bool.{Bool, true, false}

-- `negsuc n` is -(n + 1).
pub data ℤ : Type 0 where
  pos : ℕ → ℤ
  negsuc : ℕ → ℤ

-- A `float64` by its IEEE 754 bit pattern. The program only hands floats on.
pub record Float64 : Type 0 where
  pub bits : ℕ

abbrev pub positive_zero : Float64
positive_zero = record { bits = 0 }

-- `0 < n`
abbrev pub is_positive : ℤ → Bool
is_positive (pos n) = elim (compare 0 n) [ Ordering.lt ↦ true | _ ↦ false ]
is_positive (negsuc n) = false
