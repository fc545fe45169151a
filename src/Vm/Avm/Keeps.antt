-- ===== src/Vm/Avm/Keeps.antt =====
-- A postcondition that every action of the interpreter meets, with its rules.
-- The code is crates/frychain-vm/src/avm.rs.
use fry_chain.Vm.Action.Keeps.{Discipline, Keeps as Kept, keeping as actions}
use fry_chain.Vm.Gas.Meter.{consume_lem}
use fry_chain.Vm.Gas.Meter
use fry_chain.Vm.Avm.{
  StackValue, uint64, byte_string, Avm, Action, charge, push, pop, as_uint64, as_bytes, set_pc,
  read_varuint, read_i16, max_stack_depth,
}
use fry_chain.Prelude.{ℕ, ◌≤◌, ◌≡◌, arith, length}

-- The gas meter is valid and the stack is no deeper than its bound.
pub record IsSound (vm : Avm) : Type 0 where
  pub gas : Meter.IsValid vm.gas_meter
  pub shallow : length vm.stack ≤ max_stack_depth

-- The code and the gas limit stay, and gas is only ever used.
pub record Later (vm vm' : Avm) : Type 0 where
  pub same_code : vm'.bytecode ≡ vm.bytecode
  pub same_limit : vm'.gas_meter.limit ≡ vm.gas_meter.limit
  pub spent : vm.gas_meter.used ≤ vm'.gas_meter.used

pub Later-refl : (vm : Avm) → Later vm vm
Later-refl vm = ground arith

pub Later-trans : (a b c : Avm) → Later a b → Later b c → Later a c
Later-trans a b c h k = ground arith

abbrev pub avm_discipline : Discipline Avm
avm_discipline = record {
  Sound = IsSound;
  Later = Later;
  gas_meter = λ vm. vm.gas_meter;
  Later-refl = Later-refl;
  Later-trans = Later-trans;
  Sound-valid = λ vm s. s.gas;
  same_limit = λ a b l. l.same_limit;
  spent = λ a b l. l.spent;
}

abbrev pub Keeps {ℓ} : {A : Type ℓ} → Action A → Type 0
Keeps m = Kept avm_discipline m

pub charge-Keeps : (amount : ℕ) → Keeps (charge amount)
unfolding charge
charge-Keeps amount = record {
  keeps = λ vm s. ground (arith, consume_lem vm.gas_meter amount s.gas);
}

pub push-Keeps : (v : StackValue) → Keeps (push v)
unfolding push
push-Keeps v = record { keeps = λ vm s. ground arith }

pub pop-Keeps : Keeps pop
unfolding pop
pop-Keeps = record { keeps = λ vm s. ground arith }

pub as_uint64-Keeps : (v : StackValue) → Keeps (as_uint64 v)
unfolding as_uint64
as_uint64-Keeps (uint64 n) = record { keeps = λ vm s. (s, Later-refl vm) }
as_uint64-Keeps (byte_string b) = record { keeps = λ vm s. (s, Later-refl vm) }

pub as_bytes-Keeps : (v : StackValue) → Keeps (as_bytes v)
unfolding as_bytes
as_bytes-Keeps (uint64 n) = record { keeps = λ vm s. (s, Later-refl vm) }
as_bytes-Keeps (byte_string b) = record { keeps = λ vm s. (s, Later-refl vm) }

pub set_pc-Keeps : (pc : ℕ) → Keeps (set_pc pc)
unfolding set_pc
set_pc-Keeps pc = record { keeps = λ vm s. ground arith }

pub read_varuint-Keeps : Keeps read_varuint
unfolding read_varuint
read_varuint-Keeps = record { keeps = λ vm s. (s, Later-refl vm) }

pub read_i16-Keeps : Keeps read_i16
unfolding read_i16
read_i16-Keeps = record { keeps = λ vm s. ground arith }

pub ruleset keeping = (
  actions, charge-Keeps, push-Keeps, pop-Keeps, as_uint64-Keeps, as_bytes-Keeps, set_pc-Keeps,
  read_varuint-Keeps, read_i16-Keeps,
)
