-- ===== src/Prelude/Result.antt =====
-- A value or an error: Go's pair of a result and an `error`.
use mathlib.Core.Path.{◌≡◌, refl}

pub data Result {ε α} (Failure : Type ε) (Value : Type α) : Type (ε ⊔ α) where
  err : Failure → Result Failure Value
  ok : Value → Result Failure Value

module _ {ε α β} {Failure : Type ε} {Value : Type α} {Next : Type β} where
  infixl 5 ◌>>=◌
  -- `if err != nil { return err }` between two calls
  abbrev pub ◌>>=◌ : Result Failure Value → (Value → Result Failure Next) → Result Failure Next
  err failure >>= continue = err failure
  ok value >>= continue = continue value

  -- How two calls in a row gave `final`: the first gave a value, and the second took it.
  pub record Passes (call : Result Failure Value) (continue : Value → Result Failure Next)
      (final : Next) : Type (ε ⊔ α ⊔ β) where
    pub value : Value
    pub returned : call ≡ ok value
    pub continued : continue value ≡ ok final

  pub >>=-Passes :
      (call : Result Failure Value) (continue : Value → Result Failure Next) {final : Next}
      → (call >>= continue) ≡ ok final
      → Passes call continue final
  >>=-Passes (err failure) continue h = cc
  >>=-Passes (ok value) continue h = record { value = value; returned = refl; continued = h }
