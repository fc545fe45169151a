-- ===== src/Vm/Action/Keeps.antt =====
-- An invariant of a machine and an order between its states, with the rules by which actions keep
-- them.
-- The code is crates/frychain-vm/src/avm.rs and sbf.rs.
use fry_chain.Vm.Gas.{GasMeter}
use fry_chain.Vm.Gas.Meter
use fry_chain.Vm.Types.{VmError}
use fry_chain.Vm.Action.{
  Ended, ok, fail, crash, Stateful, proceed, ◌>>=◌, pure, raise, gets, index_or_crash, and_continue,
  select,
}
use fry_chain.Prelude.{
  ℕ, ◌≤◌, ◌≡◌, refl, Bool, true, false, Option, none, some, List, [], ◌∷◌, ◌==◌, if◌then◌else◌,
}

-- What a machine offers to the rules: `Sound` is its invariant, `Later` what only grows.
pub record Discipline (S : Type 0) : Type 1 where
  pub Sound : S → Type 0
  pub Later : S → S → Type 0
  pub gas_meter : S → GasMeter
  pub Later-refl : (s : S) → Later s s
  pub Later-trans : (a b c : S) → Later a b → Later b c → Later a c
  pub Sound-valid : (s : S) → Sound s → Meter.IsValid (gas_meter s)
  pub same_limit : (a b : S) → Later a b → (gas_meter b).limit ≡ (gas_meter a).limit
  pub spent : (a b : S) → Later a b → (gas_meter a).used ≤ (gas_meter b).used

pub record Keeps {ℓ} {S : Type 0} {A : Type ℓ} (d : Discipline S) (m : Stateful S A) : Type 0 where
  pub keeps : (s : S) → d.Sound s → d.Sound (m s).0 × d.Later s (m s).0

-- A property of the value that the action returns from a sound state.
pub record Returns {ℓ} {S : Type 0} {A : Type ℓ} (d : Discipline S) (Q : A → Type 0)
    (m : Stateful S A) : Type ℓ where
  pub returns : (s : S) → d.Sound s → (a : A) → (m s).1 ≡ ok a → Q a

module _ {ℓ κ} {S : Type 0} {A : Type ℓ} {B : Type κ} (d : Discipline S) where
  proceed-Keeps :
      (f : A → Stateful S B)
      → (start s : S) (r : Ended A) → d.Later start s
      → d.Sound s
      → ((a : A) → r ≡ ok a → Keeps d (f a))
      → d.Sound (proceed f s r).0 × d.Later start (proceed f s r).0
  proceed-Keeps f start s (ok a) l h keep =
      let k = (keep a refl).keeps s h in (k.0, d.Later-trans start s (f a s).0 l k.1)
  proceed-Keeps f start s (fail e) l h keep = (h, l)
  proceed-Keeps f start s crash l h keep = (h, l)

  pub bind-Returns-Keeps :
      (Q : A → Type 0) (m : Stateful S A) (f : A → Stateful S B)
      → Keeps d m
      → Returns d Q m
      → ((a : A) → Q a → Keeps d (f a))
      → Keeps d (m >>= f)
  bind-Returns-Keeps Q m f km rm kf = record {
    keeps = λ s h.
        let k = km.keeps s h in
        proceed-Keeps f s (m s).0 (m s).1 k.1 k.0 (λ a e. kf a (rm.returns s h a e));
  }

module _ {ℓ κ} {S : Type 0} {A : Type ℓ} {B : Type κ} {d : Discipline S} where
  pub bind-Keeps :
      (m : Stateful S A) (f : A → Stateful S B)
      → Keeps d m
      → ((a : A) → Keeps d (f a))
      → Keeps d (m >>= f)
  bind-Keeps m f km kf = record {
    keeps =
        λ s h. let k = km.keeps s h in proceed-Keeps d f s (m s).0 (m s).1 k.1 k.0 (λ a e. kf a);
  }

module _ {ℓ} {S : Type 0} {A : Type ℓ} {d : Discipline S} where
  pub pure-Keeps : (a : A) → Keeps d (pure a)
  pure-Keeps a = record { keeps = λ s h. (h, d.Later-refl s) }

  pub raise-Keeps : (e : VmError) → Keeps d (raise {A = A} e)
  raise-Keeps e = record { keeps = λ s h. (h, d.Later-refl s) }

  pub gets-Keeps : (f : S → A) → Keeps d (gets f)
  gets-Keeps f = record { keeps = λ s h. (h, d.Later-refl s) }

  pub index_or_crash-Keeps : (o : Option A) → Keeps d (index_or_crash o)
  index_or_crash-Keeps none = record { keeps = λ s h. (h, d.Later-refl s) }
  index_or_crash-Keeps (some a) = record { keeps = λ s h. (h, d.Later-refl s) }

  pub if-Keeps :
      (b : Bool) (m k : Stateful S A) → Keeps d m → Keeps d k → Keeps d (if b then m else k)
  if-Keeps true m k hm hk = hm
  if-Keeps false m k hm hk = hk

pub ruleset keeping =
    (bind-Keeps, pure-Keeps, raise-Keeps, gets-Keeps, index_or_crash-Keeps, if-Keeps)

-- Every arm of a `match` on the opcode keeps the invariant.
abbrev pub AllKeep : {S : Type 0} → Discipline S → List (ℕ × Stateful S Bool) → Type 0
AllKeep d [] = Unit
AllKeep d ((code, arm) ∷ arms) = Keeps d arm × AllKeep d arms

module _ {S : Type 0} {d : Discipline S} where
  pub and_continue-Keeps : (m : Stateful S (Unit {0})) → Keeps d m → Keeps d (and_continue m)
  and_continue-Keeps m k = search (keeping)

  pub select-Keeps :
      (opcode : ℕ) (arms : List (ℕ × Stateful S Bool)) (other : Stateful S Bool)
      → AllKeep d arms
      → Keeps d other
      → Keeps d (select opcode arms other)
  select-Keeps opcode [] other h k = k
  select-Keeps opcode ((code, arm) ∷ arms) other h k =
      if-Keeps (opcode == code) arm (select opcode arms other) h.0
        (select-Keeps opcode arms other h.1 k)
