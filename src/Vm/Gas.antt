-- ===== src/Vm/Gas.antt =====
-- crates/frychain-vm/src/gas.rs: the gas meter and the gas costs.
pub mod Meter
pub mod Memory
use fry_chain.Words.{u64_mod, saturating_add, wrapping_add, wrapping_mul}
use fry_chain.Prelude.{ℕ, ◌-◌, ◌/◌, min, Bool, true, false, ltb, leb, if◌then◌else◌}

-- `pub mod costs`
abbrev pub base_cost : ℕ
base_cost = 2

abbrev pub very_low_cost : ℕ
very_low_cost = 3

abbrev pub low_cost : ℕ
low_cost = 5

abbrev pub call_cost : ℕ
call_cost = 700

abbrev pub sload_cost : ℕ
sload_cost = 800

abbrev pub sstore_set_cost : ℕ
sstore_set_cost = 20000

abbrev pub log_cost : ℕ
log_cost = 375

abbrev pub log_data_cost : ℕ
log_data_cost = 8

abbrev pub sha3_word_cost : ℕ
sha3_word_cost = 6

abbrev pub sha3_base_cost : ℕ
sha3_base_cost = 30

abbrev pub memory_copy_cost : ℕ
memory_copy_cost = 3

pub record GasMeter : Type 0 where
  pub limit : ℕ
  pub used : ℕ
  pub refund : ℕ

abbrev pub new_meter : ℕ → GasMeter
new_meter limit = record { limit = limit; used = 0; refund = 0 }

unfoldable pub remaining : GasMeter → ℕ
remaining m = m.limit - m.used

-- The meter after the call, and whether there was enough gas: `Err` carries `OutOfGas` with the
-- limit twice.
unfoldable pub consume : GasMeter → ℕ → GasMeter × Bool
consume m amount =
    let new_used = saturating_add u64_mod m.used amount in
    if ltb m.limit new_used
    then (record m { used = m.limit }, false)
    else (record m { used = new_used }, true)

unfoldable pub add_refund : GasMeter → ℕ → GasMeter
add_refund m amount = record m { refund = saturating_add u64_mod m.refund amount }

unfoldable pub final_used : GasMeter → ℕ
final_used m =
    let max_refund = m.used / 2 in
    let actual_refund = min m.refund max_refund in m.used - actual_refund

unfoldable pub has_gas : GasMeter → ℕ → Bool
has_gas m amount = leb (saturating_add u64_mod m.used amount) m.limit

unfoldable pub sub_meter : GasMeter → ℕ → GasMeter
unfolding remaining
sub_meter m gas_limit =
    let available = remaining m in
    let max_for_call = available - available / 64 in
    record { limit = min gas_limit max_for_call; used = 0; refund = 0 }

unfoldable pub return_gas : GasMeter → GasMeter → GasMeter
return_gas m sub =
    let sub_remaining = sub.limit - sub.used in
    record m { refund = saturating_add u64_mod m.refund sub.refund; used = m.used - sub_remaining }

-- The words of a memory of `size` bytes, and what they cost.
unfoldable pub words_of : ℕ → ℕ
words_of size = wrapping_add u64_mod size 31 / 32

unfoldable pub words_cost : ℕ → ℕ
words_cost words =
    wrapping_add u64_mod (wrapping_mul u64_mod words words / 512) (wrapping_mul u64_mod words 3)

unfoldable pub memory_cost : ℕ → ℕ → ℕ
memory_cost current_size new_size =
    if leb new_size current_size
    then 0
    else words_cost (words_of new_size) - words_cost (words_of current_size)

unfoldable pub copy_cost : ℕ → ℕ
unfolding words_of
copy_cost size = wrapping_mul u64_mod memory_copy_cost (words_of size)
