-- ===== src/Vm/Sbf.antt =====
-- crates/frychain-vm/src/sbf.rs: the instructions of the register machine, and its state.
pub mod Memory
pub mod Ops
pub mod Run
pub mod Decode
pub mod Keeps
pub mod Heap
pub mod Access
pub mod Instructions
pub mod Sound
pub mod Halts
mod Tests
use fry_chain.HashMap.{HashMap}
use fry_chain.Core.Address.{Address}
use fry_chain.Vm.Gas.{GasMeter, consume, new_meter}
use fry_chain.Vm.Types.{VmError, out_of_gas, invalid_contract, VmLog, ExecutionContext, has_magic}
use fry_chain.Vm.Action.{Ended, ok, fail, crash, Stateful, ◌>>=◌, index_or_crash, gets}
use fry_chain.Words.{u64_mod}
use fry_chain.Words.Bytes.{from_le}
use fry_chain.Prelude.{
  ℕ, zero, suc, ◌+◌, ◌-◌, ◌*◌, ◌/◌, ◌%◌, ◌^◌, min, Bool, Option, none, some, List, [], ◌∷◌, ltb,
  if◌then◌else◌, length, get_elem?, set_elem, drop, replicate, ◌⊎◌, inl, inr,
}

-- `offset` and `imm` are the 16 and 32 bits of two's complements.
pub record SbfInstruction : Type 0 where
  pub opcode : ℕ
  pub dst : ℕ
  pub src : ℕ
  pub offset : ℕ
  pub imm : ℕ

-- `SbfInstruction::decode`
unfoldable pub decode : List ℕ → Option SbfInstruction
decode (b0 ∷ b1 ∷ b2 ∷ b3 ∷ b4 ∷ b5 ∷ b6 ∷ b7 ∷ rest) = some record {
  opcode = b0;
  dst = b1 % 16;
  src = b1 / 16 % 16;
  offset = from_le (b2 ∷ b3 ∷ []);
  imm = from_le (b4 ∷ b5 ∷ b6 ∷ b7 ∷ []);
}
decode _ = none

-- `as u64` of a two's complement of `w` bits.
unfoldable pub sign_extend : ℕ → ℕ → ℕ
sign_extend w n = if ltb n (2 ^ (w - 1)) then n else n + (u64_mod - 2 ^ w)

abbrev pub num_registers : ℕ
num_registers = 11

abbrev pub stack_size : ℕ
stack_size = 4096

abbrev pub heap_size : ℕ
heap_size = 32 * 1024

abbrev pub max_call_depth : ℕ
max_call_depth = 64

pub record AccountData : Type 0 where
  pub lamports : ℕ
  pub account_data : List ℕ
  pub owner : Address
  pub executable : Bool
  pub rent_epoch : ℕ

-- The `Vec` of the call stack is a list whose head was pushed last.
pub record SbfVm : Type 0 where
  pub registers : List ℕ
  pub pc : ℕ
  pub instructions : List SbfInstruction
  pub heap : List ℕ
  pub stack : List ℕ
  pub call_stack : List ℕ
  pub gas_meter : GasMeter
  pub logs : List VmLog
  pub context : ExecutionContext
  pub accounts : HashMap Address AccountData

-- The loop of `parse_elf` over the code, eight bytes at a time; the rounds bound it.
unfoldable pub decode_all : ℕ → List ℕ → List SbfInstruction
unfolding decode
decode_all zero code = []
decode_all (suc rounds) code =
    let rest = decode_all rounds (drop 8 code) in
    elim (decode code) [ none ↦ [] | some instruction ↦ instruction ∷ rest ]

-- `mov64 r0, 0` and `exit`
unfoldable pub minimal_program : List SbfInstruction
minimal_program =
    record { opcode = 0xb7; dst = 0; src = 0; offset = 0; imm = 0 }
    ∷ record { opcode = 0x95; dst = 0; src = 0; offset = 0; imm = 0 }
    ∷ []

unfoldable pub or_minimal : List SbfInstruction → List SbfInstruction
unfolding minimal_program
or_minimal [] = minimal_program
or_minimal (instruction ∷ rest) = instruction ∷ rest

-- `none` is the error `InvalidContract`. A round for every eight bytes is enough.
unfoldable pub parse_elf : List ℕ → Option (List SbfInstruction)
unfolding decode_all or_minimal
parse_elf bytecode =
    let code = drop (min 64 (length bytecode)) bytecode in
    if has_magic (0x7f ∷ b'E' ∷ b'L' ∷ b'F' ∷ []) bytecode
    then some (or_minimal (decode_all (length code / 8) code))
    else none

unfoldable pub zeroed : ℕ → List ℕ
zeroed size = replicate size 0

unfoldable pub loaded : List SbfInstruction → ExecutionContext → SbfVm
unfolding zeroed
loaded instructions context = record {
  registers = replicate num_registers 0;
  pc = 0;
  instructions = instructions;
  heap = zeroed heap_size;
  stack = zeroed stack_size;
  call_stack = [];
  gas_meter = new_meter context.gas_limit;
  logs = [];
  context = context;
  accounts = [];
}

-- `SbfVM::new`, after `parse_elf`
abbrev pub with_program : ExecutionContext → Option (List SbfInstruction) → SbfVm ⊎ VmError
with_program context none = inr (invalid_contract "Invalid ELF header")
with_program context (some instructions) = inl (loaded instructions context)

unfoldable pub new_sbf : List ℕ → ExecutionContext → SbfVm ⊎ VmError
new_sbf bytecode context = with_program context (parse_elf bytecode)

abbrev pub Action {ℓ} : Type ℓ → Type ℓ
Action A = Stateful SbfVm A

-- `self.gas_meter.consume(amount)?`
unfoldable pub charge : ℕ → Action (Unit {0})
charge amount vm = (
  record vm { gas_meter = (consume vm.gas_meter amount).0 },
  if (consume vm.gas_meter amount).1
      then ok tt
      else fail (out_of_gas vm.gas_meter.limit vm.gas_meter.limit),
)

-- `self.registers[i]`
unfoldable pub register : ℕ → Action ℕ
register i = do registers ← gets (λ vm. vm.registers); index_or_crash (get_elem? registers i)

unfoldable pub set_register : ℕ → ℕ → Action (Unit {0})
set_register i value vm =
    if ltb i (length vm.registers)
    then (record vm { registers = set_elem vm.registers i value }, ok tt)
    else (vm, crash)

unfoldable pub set_pc : ℕ → Action (Unit {0})
set_pc pc vm = (record vm { pc = pc }, ok tt)
