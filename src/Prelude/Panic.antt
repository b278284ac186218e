-- ===== src/Prelude/Panic.antt =====
-- A Go computation that may panic: `none` is a panic, such as reading through a nil pointer.
use mathlib.Core.Option.{Option, none, some}

module _ {α β} {Value : Type α} {Next : Type β} where
  infixl 5 ◌>>=◌
  -- Nothing runs after a panic.
  abbrev pub ◌>>=◌ : Option Value → (Value → Option Next) → Option Next
  some value >>= continue = continue value
  none >>= continue = none
