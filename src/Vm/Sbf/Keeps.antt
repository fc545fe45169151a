-- ===== src/Vm/Sbf/Keeps.antt =====
-- The invariant of the register machine, and the helpers that keep it.
-- The code is crates/frychain-vm/src/sbf.rs.
use fry_chain.Words.{u64_mod}
use fry_chain.Vm.Gas.Meter.{consume_lem}
use fry_chain.Vm.Gas.Meter
use fry_chain.Vm.Action.Keeps.{Discipline, Keeps as Kept, Returns as Returning, keeping as actions}
use fry_chain.Vm.Sbf.{
  SbfVm, Action, num_registers, heap_size, max_call_depth, charge, register, set_register, set_pc,
}
use fry_chain.Vm.Sbf.Decode.{IsEncodable}
use fry_chain.Prelude.{
  ℕ, ◌≤◌, ◌<◌, ◌≡◌, refl, All, All-get_elem?, All-set_elem, length-set_elem, arith, length,
}

-- A `u64`, and a `u8`.
abbrev pub IsWord : ℕ → Type 0
IsWord n = n < u64_mod

abbrev pub IsByte : ℕ → Type 0
IsByte n = n < 256

-- There are eleven 64-bit registers and 32768 bytes of heap, the call stack is within its bound, and
-- the instructions are such as a program file can hold.
pub record IsSound (vm : SbfVm) : Type 0 where
  pub gas : Meter.IsValid vm.gas_meter
  pub registers_count : length vm.registers ≡ num_registers
  pub registers_fit : All IsWord vm.registers
  pub heap_length : length vm.heap ≡ heap_size
  pub heap_fits : All IsByte vm.heap
  pub shallow : length vm.call_stack ≤ max_call_depth
  pub code : All IsEncodable vm.instructions

-- The code and the gas limit stay, and gas is only ever used.
pub record Later (vm vm' : SbfVm) : Type 0 where
  pub same_code : vm'.instructions ≡ vm.instructions
  pub same_limit : vm'.gas_meter.limit ≡ vm.gas_meter.limit
  pub spent : vm.gas_meter.used ≤ vm'.gas_meter.used

pub Later-refl : (vm : SbfVm) → Later vm vm
Later-refl vm = record { same_code = refl; same_limit = refl; spent = omega arith }

pub Later-trans : (a b c : SbfVm) → Later a b → Later b c → Later a c
Later-trans a b c h k = ground arith

abbrev pub sbf_discipline : Discipline SbfVm
sbf_discipline = record {
  Sound = IsSound;
  Later = Later;
  gas_meter = λ vm. vm.gas_meter;
  Later-refl = Later-refl;
  Later-trans = Later-trans;
  Sound-valid = λ vm s. s.gas;
  same_limit = λ a b l. l.same_limit;
  spent = λ a b l. l.spent;
}

abbrev pub Keeps {ℓ} : {A : Type ℓ} → Action A → Type 0
Keeps m = Kept sbf_discipline m

abbrev pub Returns {ℓ} : {A : Type ℓ} → (A → Type 0) → Action A → Type ℓ
Returns Q m = Returning sbf_discipline Q m

pub charge-Keeps : (amount : ℕ) → Keeps (charge amount)
unfolding charge
charge-Keeps amount = record {
  keeps = λ vm s. ground (arith, consume_lem vm.gas_meter amount s.gas);
}

pub set_pc-Keeps : (pc : ℕ) → Keeps (set_pc pc)
unfolding set_pc
set_pc-Keeps pc = record { keeps = λ vm s. ground arith }

pub register-Keeps : (i : ℕ) → Keeps (register i)
unfolding register
register-Keeps i = search (actions)

pub register-Returns : (i : ℕ) → Returns IsWord (register i)
unfolding register
register-Returns i = record {
  returns = λ vm s a e. ground (arith, All-get_elem? IsWord vm.registers i a s.registers_fit);
}

pub set_register-Keeps : (i value : ℕ) → IsWord value → Keeps (set_register i value)
unfolding set_register
set_register-Keeps i value fits = record {
  keeps = λ vm s. ground (
    arith,
    All-set_elem IsWord vm.registers i value s.registers_fit fits,
    length-set_elem vm.registers i value,
  );
}
