-- ===== src/Vm/Action/Loop.antt =====
-- A main loop whose steps use gas comes to an end.
-- The code is crates/frychain-vm/src/avm.rs and sbf.rs.
use fry_chain.Vm.Gas.{base_cost}
use fry_chain.Vm.Types.{ExecutionContext, VmResult}
use fry_chain.Vm.Action.{Ended, ok, fail, crash, Stateful, proceed, ◌>>=◌, after_step, run_loop}
use fry_chain.Vm.Action.Keeps.{Discipline, Keeps, Returns}
use fry_chain.Prelude.{
  ℕ, zero, suc, ◌+◌, ◌*◌, ◌≤◌, ◌<◌, ◌≡◌, refl, inl, inr, Bool, true, false, Option, some, arith,
  Bool-cases, ◌/◌, none,
}

-- Where the action succeeds, it has used at least `n` gas.
pub record Spends {ℓ} {S : Type 0} {A : Type ℓ} (d : Discipline S) (n : ℕ) (m : Stateful S A)
    : Type ℓ where
  pub spends :
      (s : S)
      → d.Sound s
      → (a : A) → (m s).1 ≡ ok a
      → (d.gas_meter s).used + n ≤ (d.gas_meter (m s).0).used

module _ {ℓ κ} {S : Type 0} {A : Type ℓ} {B : Type κ} {d : Discipline S} (n : ℕ) where
  -- A step that spends, then anything that keeps the machine sound.
  proceed-Spends_first :
      (f : A → Stateful S B)
      → ((a : A) → Keeps d (f a))
      → (u : ℕ) (s : S) (r : Ended A) → d.Sound s
      → ((a : A) → r ≡ ok a → u + n ≤ (d.gas_meter s).used)
      → (b : B) → (proceed f s r).1 ≡ ok b
      → u + n ≤ (d.gas_meter (proceed f s r).0).used
  proceed-Spends_first f keep u s (ok a) h spend b e =
      omega (arith, spend a refl, d.spent s (f a s).0 ((keep a).keeps s h).1)
  proceed-Spends_first f keep u s (fail x) h spend b e = cc
  proceed-Spends_first f keep u s crash h spend b e = cc

  pub Spends-bind_first :
      (m : Stateful S A) (f : A → Stateful S B)
      → Spends d n m
      → Keeps d m
      → ((a : A) → Keeps d (f a))
      → Spends d n (m >>= f)
  Spends-bind_first m f sm km kf = record {
    spends = λ s h b e.
        proceed-Spends_first f kf (d.gas_meter s).used (m s).0 (m s).1 (km.keeps s h).0
          (sm.spends s h) b e;
  }

  proceed-Spends_then :
      (f : A → Stateful S B) (u : ℕ) (s : S) (r : Ended A)
      → ((a : A) → r ≡ ok a → Spends d n (f a))
      → d.Sound s
      → u ≤ (d.gas_meter s).used
      → (b : B) → (proceed f s r).1 ≡ ok b
      → u + n ≤ (d.gas_meter (proceed f s r).0).used
  proceed-Spends_then f u s (ok a) spend h l b e = omega (arith, (spend a refl).spends s h b e)
  proceed-Spends_then f u s (fail x) spend h l b e = cc
  proceed-Spends_then f u s crash spend h l b e = cc

  pub Spends-bind-Returns :
      (Q : A → Type 0) (m : Stateful S A) (f : A → Stateful S B)
      → Keeps d m
      → Returns d Q m
      → ((a : A) → Q a → Spends d n (f a))
      → Spends d n (m >>= f)
  Spends-bind-Returns Q m f km rm sf = record {
    spends = λ s h b e.
        proceed-Spends_then f (d.gas_meter s).used (m s).0 (m s).1
          (λ a r. sf a (rm.returns s h a r)) (km.keeps s h).0 (d.spent s (m s).0 (km.keeps s h).1) b
          e;
  }

  pub Spends-bind_then :
      (m : Stateful S A) (f : A → Stateful S B)
      → Keeps d m
      → ((a : A) → Spends d n (f a))
      → Spends d n (m >>= f)
  Spends-bind_then m f km sf =
      Spends-bind-Returns (λ a. Unit) m f km (record { returns = λ s h a e. tt }) (λ a q. sf a)

module _ {S : Type 0} (d : Discipline S) (cost : ℕ) where
  -- The loop stops, and the machine is sound there.
  abbrev pub Stops : S → Option (S × Ended (Unit {0})) → Type 0
  Stops s o = (r : S × Ended (Unit {0})) × (o ≡ some r) × d.Sound r.0 × d.Later s r.0

  -- The rounds that are left, at `cost` gas each, pass the limit.
  abbrev pub HasRounds : ℕ → S → Type 0
  HasRounds rounds s = (d.gas_meter s).limit < (d.gas_meter s).used + cost * rounds

  after_step_halts :
      (rounds : ℕ) (go : S → Option (S × Ended (Unit {0})))
      → ((s : S) → d.Sound s → HasRounds rounds s → Stops s (go s))
      → (start s : S) (r : Ended Bool) → HasRounds (suc rounds) start
      → d.Sound s
      → d.Later start s
      → ((b : Bool) → r ≡ ok b → (d.gas_meter start).used + cost ≤ (d.gas_meter s).used)
      → Stops start (after_step go s r)
  after_step_halts rounds go ih start s (ok true) h sound l spent =
      let (r, e, sound_r, later) =
        ih s sound (omega (arith, d.same_limit start s l, spent true refl)) in
      (r, e, sound_r, d.Later-trans start s r.0 l later)
  after_step_halts rounds go ih start s (ok false) h sound l spent = ((s, ok tt), refl, sound, l)
  after_step_halts rounds go ih start s (fail e) h sound l spent = ((s, fail e), refl, sound, l)
  after_step_halts rounds go ih start s crash h sound l spent = ((s, crash), refl, sound, l)

  -- With rounds for the gas that is left the loop comes to an end.
  pub run_loop_halts :
      (stopped : S → Bool) (step : Stateful S Bool)
      → Keeps d step
      → Spends d cost step
      → (rounds : ℕ) (s : S) → d.Sound s
      → HasRounds rounds s
      → Stops s (run_loop stopped step rounds s)
  unfolding run_loop
  run_loop_halts stopped step keep spend zero s h fuel =
      absurd (omega (arith, (d.Sound-valid s h).within))
  run_loop_halts stopped step keep spend (suc rounds) s h fuel = elim (Bool-cases (stopped s)) [
    | inl at_end ↦ rw at_end ((s, ok tt), refl, h, d.Later-refl s)
    | inr inside ↦
        let k = keep.keeps s h in
        rw inside (
          after_step_halts rounds (run_loop stopped step rounds)
            (run_loop_halts stopped step keep spend rounds) s (step s).0 (step s).1 fuel k.0 k.1
            (spend.spends s h))
  ]

-- The rounds that the gas of the context allows.
abbrev pub enough_rounds : ExecutionContext → ℕ
enough_rounds context = context.gas_limit / base_cost + 1

-- A result has used no more gas than the limit.
abbrev pub GasWithin : ℕ → Option VmResult → Type 0
GasWithin limit none = Unit
GasWithin limit (some result) = result.gas_used ≤ limit
