-- ===== src/Vm/Avm.antt =====
-- crates/frychain-vm/src/avm.rs: the state of the TEAL interpreter, and the helpers of its
-- instructions.
pub mod Ops
pub mod Run
pub mod Keeps
pub mod Instructions
pub mod Sound
pub mod Halts
pub mod Constants
use fry_chain.HashMap.{HashMap}
use fry_chain.Vm.Gas.{GasMeter, consume, new_meter}
use fry_chain.Vm.Types.{
  VmError, out_of_gas, stack_overflow, stack_underflow, execution_error, VmLog, ExecutionContext,
}
use fry_chain.Vm.Action.{
  Ended, ok, fail, crash, Stateful, ◌>>=◌, ◌>>◌, pure, raise, gets, index_or_crash,
}
use fry_chain.Prelude.{
  ℕ, zero, suc, ◌+◌, ◌*◌, ◌%◌, ◌^◌, bit_or, Bool, false, not, ◌||◌, Option, none, some, List, [],
  ◌∷◌, ltb, leb, ◌==◌, if◌then◌else◌, length, get_elem?, get_or, drop, replicate,
}

pub data StackValue : Type 0 where
  uint64 : ℕ → StackValue
  byte_string : List ℕ → StackValue

-- The `Vec` of the stack is a list whose head was pushed last.
pub record Avm : Type 0 where
  pub stack : List StackValue
  pub scratch : List (Option StackValue)
  pub pc : ℕ
  pub bytecode : List ℕ
  pub int_constants : List ℕ
  pub byte_constants : List (List ℕ)
  pub global_state : HashMap (List ℕ) StackValue
  pub local_state : HashMap (List ℕ) (HashMap (List ℕ) StackValue)
  pub call_stack : List ℕ
  pub gas_meter : GasMeter
  pub logs : List VmLog
  pub context : ExecutionContext

-- `AVMInterpreter::new`
unfoldable pub new_avm : List ℕ → ExecutionContext → Avm
new_avm bytecode context = record {
  stack = [];
  scratch = replicate 256 none;
  pc = 0;
  bytecode = bytecode;
  int_constants = [];
  byte_constants = [];
  global_state = [];
  local_state = [];
  call_stack = [];
  gas_meter = new_meter context.gas_limit;
  logs = [];
  context = context;
}

abbrev pub Action {ℓ} : Type ℓ → Type ℓ
Action A = Stateful Avm A

-- `self.gas_meter.consume(amount)?`
unfoldable pub charge : ℕ → Action (Unit {0})
charge amount vm = (
  record vm { gas_meter = (consume vm.gas_meter amount).0 },
  if (consume vm.gas_meter amount).1
      then ok tt
      else fail (out_of_gas vm.gas_meter.limit vm.gas_meter.limit),
)

abbrev pub max_stack_depth : ℕ
max_stack_depth = 1000

unfoldable pub push : StackValue → Action (Unit {0})
push v vm =
    if leb max_stack_depth (length vm.stack)
    then (vm, fail stack_overflow)
    else (record vm { stack = v ∷ vm.stack }, ok tt)

abbrev pop_from : List StackValue → Action StackValue
pop_from [] vm = (vm, fail stack_underflow)
pop_from (v ∷ rest) vm = (record vm { stack = rest }, ok v)

unfoldable pub pop : Action StackValue
pop vm = pop_from vm.stack vm

unfoldable pub as_uint64 : StackValue → Action ℕ
as_uint64 (uint64 n) = pure n
as_uint64 (byte_string _) = raise (execution_error "Expected uint64, got bytes")

unfoldable pub as_bytes : StackValue → Action (List ℕ)
as_bytes (byte_string b) = pure b
as_bytes (uint64 _) = raise (execution_error "Expected bytes, got uint64")

abbrev any_nonzero : List ℕ → Bool
any_nonzero [] = false
any_nonzero (b ∷ bs) = not (b == 0) || any_nonzero bs

-- A byte string counts as true where one of its bytes is not zero.
unfoldable pub to_bool : StackValue → Bool
to_bool (uint64 n) = not (n == 0)
to_bool (byte_string b) = any_nonzero b

unfoldable pub set_pc : ℕ → Action (Unit {0})
set_pc pc vm = (record vm { pc = pc }, ok tt)

-- The loop of `read_varuint` over the bytes from `pc` on: ten rounds reach a shift above 63.
unfoldable pub varuint_from : ℕ → List ℕ → ℕ → ℕ → ℕ → Ended (ℕ × ℕ)
varuint_from zero bytes result shift bytes_read = fail (execution_error "Varuint too large")
varuint_from (suc rounds) [] result shift bytes_read =
    fail (execution_error "Unexpected end of bytecode")
varuint_from (suc rounds) (byte ∷ bytes) result shift bytes_read =
    let sum = bit_or result (byte % 128 * 2 ^ shift % 2 ^ 64) in
    let more = varuint_from rounds bytes sum (shift + 7) (bytes_read + 1) in
    if ltb byte 128 then ok (sum, bytes_read + 1) else more

-- The value and the number of bytes read; the program counter stays.
unfoldable pub read_varuint : Action (ℕ × ℕ)
unfolding varuint_from
read_varuint vm = (vm, varuint_from 10 (drop vm.pc vm.bytecode) 0 0 0)

-- `i16::from_be_bytes`, as the 16 bits that it reads
unfoldable pub read_i16 : Action ℕ
read_i16 vm =
    if ltb (length vm.bytecode) (vm.pc + 2)
    then (vm, fail (execution_error "Unexpected end of bytecode"))
    else (
      record vm { pc = vm.pc + 2 },
      ok (get_or vm.bytecode vm.pc 0 * 256 + get_or vm.bytecode (vm.pc + 1) 0),
    )

-- The byte after the opcode: `self.bytecode[self.pc]`, then `self.pc += 1`.
unfoldable pub read_operand : Action ℕ
unfolding set_pc
read_operand = do
  pc ← gets (λ vm. vm.pc)
  bytecode ← gets (λ vm. vm.bytecode)
  byte ← index_or_crash (get_elem? bytecode pc)
  set_pc (pc + 1)
  pure byte
