-- ===== src/Prelude/Panics.antt =====
-- How a computation ends: with a value, or by a panic (an index out of bounds, a division by zero).
-- A loop that runs out of its fuel also counts as a panic, so that a theorem which says that a
-- function is `done` covers termination.
use mathlib.Core.Option.{Option, none, some}

pub data Outcome {ℓ} (A : Type ℓ) : Type ℓ where
  done : A → Outcome A
  panic : Outcome A

abbrev pub and_then {ℓ κ} : {A : Type ℓ} {B : Type κ} → Outcome A → (A → Outcome B) → Outcome B
and_then (done a) f = f a
and_then panic f = panic

-- An index or a lookup that panics where there is nothing.
abbrev pub expect {ℓ} : {A : Type ℓ} → Option A → Outcome A
expect none = panic
expect (some a) = done a
