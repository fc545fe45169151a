-- ===== src/Vm/Action.antt =====
-- crates/frychain-vm: what the interpreters of avm.rs and sbf.rs share. The methods of a machine that
-- return `Result` are actions: they return the machine as they leave it, after an error too.
pub mod Keeps
pub mod Loop
use fry_chain.Vm.Types.{VmError}
use fry_chain.Prelude.{
  ℕ, zero, suc, Bool, true, false, Option, none, some, List, [], ◌∷◌, ◌==◌, if◌then◌else◌,
}

-- How an action ends; `crash` is a panic of the program, such as an index out of bounds.
pub data Ended {ℓ} (A : Type ℓ) : Type ℓ where
  ok : A → Ended A
  fail : VmError → Ended A
  crash : Ended A

abbrev pub Stateful {ℓ} : Type 0 → Type ℓ → Type ℓ
Stateful S A = S → S × Ended A

-- The `?` operator.
abbrev pub proceed {ℓ κ} :
    {S : Type 0} {A : Type ℓ} {B : Type κ} → (A → Stateful S B) → S → Ended A → S × Ended B
proceed f s (ok a) = f a s
proceed f s (fail e) = (s, fail e)
proceed f s crash = (s, crash)

infixl 5 ◌>>=◌ ◌>>◌
abbrev pub ◌>>=◌ {ℓ κ} :
    {S : Type 0} {A : Type ℓ} {B : Type κ} → Stateful S A → (A → Stateful S B) → Stateful S B
◌>>=◌ m f s = proceed f (m s).0 (m s).1

abbrev pub ◌>>◌ {ℓ} :
    {S : Type 0} {B : Type ℓ} → Stateful S (Unit {0}) → Stateful S B → Stateful S B
m >> k = m >>= λ _. k

abbrev pub pure {ℓ} : {S : Type 0} {A : Type ℓ} → A → Stateful S A
pure a s = (s, ok a)

abbrev pub raise {ℓ} : {S : Type 0} {A : Type ℓ} → VmError → Stateful S A
raise e s = (s, fail e)

abbrev pub gets {ℓ} : {S : Type 0} {A : Type ℓ} → (S → A) → Stateful S A
gets f s = (s, ok (f s))

-- An index into a `Vec`.
abbrev pub index_or_crash {ℓ} : {S : Type 0} {A : Type ℓ} → Option A → Stateful S A
index_or_crash none s = (s, crash)
index_or_crash (some a) s = (s, ok a)

-- The instructions end with `Ok(true)`, those that stop the program with `Ok(false)`.
abbrev pub and_continue : {S : Type 0} → Stateful S (Unit {0}) → Stateful S Bool
and_continue m = m >> pure true

-- The arms of a `match` on the opcode.
abbrev pub select :
    {S : Type 0} → ℕ → List (ℕ × Stateful S Bool) → Stateful S Bool → Stateful S Bool
select opcode [] other = other
select opcode ((code, arm) ∷ arms) other = if opcode == code then arm else select opcode arms other

-- What the main loop does after a step: it goes on, or it ends by `Ok(false)`, by an error, or by a
-- panic.
abbrev pub after_step :
    {S : Type 0}
    → (S → Option (S × Ended (Unit {0})))
    → S
    → Ended Bool
    → Option (S × Ended (Unit {0}))
after_step go s (ok true) = go s
after_step go s (ok false) = some (s, ok tt)
after_step go s (fail e) = some (s, fail e)
after_step go s crash = some (s, crash)

-- The main loop, with a bound on its rounds; `none` means that the rounds ran out.
unfoldable pub run_loop :
    {S : Type 0} → (S → Bool) → Stateful S Bool → ℕ → S → Option (S × Ended (Unit {0}))
run_loop stopped step zero s = none
run_loop stopped step (suc rounds) s =
    if stopped s
    then some (s, ok tt)
    else after_step (run_loop stopped step rounds) (step s).0 (step s).1
