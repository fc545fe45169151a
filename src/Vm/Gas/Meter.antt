-- ===== src/Vm/Gas/Meter.antt =====
-- The gas meter: what it charges, and that it never passes its limit.
-- The code is crates/frychain-vm/src/gas.rs.
use fry_chain.Words.{u64_mod}
use fry_chain.Vm.Gas.{GasMeter, remaining, consume, final_used, has_gas, sub_meter, return_gas}
use fry_chain.Prelude.{ℕ, ◌+◌, ◌-◌, ◌*◌, ◌/◌, ◌≤◌, ◌<◌, ◌≡◌, ◌↔◌, true, arith, if◌then◌else◌}

-- The limit is a `u64` below the largest, and no more has been used than that.
pub record IsValid (m : GasMeter) : Type 0 where
  pub within : m.used ≤ m.limit
  pub fits : m.limit < u64_mod - 1

-- A charge to a valid meter goes through exactly when the gas that is left covers it. Then that
-- much more is used; otherwise all gas is used up. The limit and the refund stay, and the meter
-- stays valid.
pub consume_lem :
    (m : GasMeter) (amount : ℕ)
    → IsValid m
    → let (m', paid) = consume m amount in
      ((paid ≡ true) ↔ (amount ≤ remaining m))
      × (m'.used ≡ (if paid then m.used + amount else m.limit))
      × (m'.limit ≡ m.limit)
      × (m'.refund ≡ m.refund)
      × IsValid m'
unfolding consume remaining
consume_lem m amount v = ground arith

-- `has_gas` foretells `consume`.
pub has_gas-eq-consume : (m : GasMeter) (amount : ℕ) → has_gas m amount ≡ (consume m amount).1
unfolding consume has_gas
has_gas-eq-consume m amount = ground arith

-- Refunds give back at most half of the gas that was used.
pub final_used_bounds : (m : GasMeter) → (final_used m ≤ m.used) × (m.used ≤ 2 * final_used m)
unfolding final_used
final_used_bounds m = omega arith

-- A nested call on a valid meter, charged for before it starts, that uses no more than its limit:
-- its gas is covered, at least a 64th of what is left stays with the caller, and when the rest is
-- returned the caller has paid exactly for what the call used.
pub return_gas-sub_meter :
    (m sub : GasMeter) (gas_limit : ℕ)
    → IsValid m
    → sub.limit ≡ (sub_meter m gas_limit).limit
    → sub.used ≤ sub.limit
    → ((consume m sub.limit).1 ≡ true)
      × (sub.limit ≤ gas_limit)
      × (remaining m / 64 ≤ remaining (consume m sub.limit).0)
      × ((return_gas (consume m sub.limit).0 sub).used ≡ m.used + sub.used)
unfolding consume sub_meter return_gas remaining
return_gas-sub_meter m sub gas_limit v e h = ground arith
