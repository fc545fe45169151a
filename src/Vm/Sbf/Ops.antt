-- ===== src/Vm/Sbf/Ops.antt =====
-- crates/frychain-vm/src/sbf.rs: the arms of `step`.
use fry_chain.Words.{u64_mod}
use fry_chain.Vm.Gas.{very_low_cost, low_cost, call_cost, sha3_base_cost}
use fry_chain.Vm.Types.{execution_error, stack_overflow}
use fry_chain.Vm.Action.{ok, fail, crash, ◌>>=◌, ◌>>◌, pure, raise, gets}
use fry_chain.Vm.Sbf.{
  SbfInstruction, Action, sign_extend, max_call_depth, charge, register, set_register, set_pc,
}
use fry_chain.Vm.Sbf.Memory.{
  read_memory_u8, read_memory_slice, read_memory, write_memory_u8, write_memory,
}
use fry_chain.Prelude.{
  ℕ, ◌+◌, ◌-◌, ◌*◌, ◌/◌, ◌%◌, ◌^◌, Bool, true, false, List, [], ◌∷◌, leb, ◌==◌, if◌then◌else◌,
  length, ◌++◌,
}

-- `inst.imm as u64`
unfoldable pub immediate : SbfInstruction → ℕ
unfolding sign_extend
immediate inst = sign_extend 32 inst.imm

-- `registers[dst] = f(registers[dst], imm)`
unfoldable pub alu_immediate : (ℕ → ℕ → ℕ) → SbfInstruction → Action (Unit {0})
alu_immediate f inst = do x ← register inst.dst; set_register inst.dst (f x (immediate inst))

unfoldable pub div_immediate : SbfInstruction → Action (Unit {0})
div_immediate inst =
    if immediate inst == 0
    then raise (execution_error "Division by zero")
    else alu_immediate ◌/◌ inst

unfoldable pub mod_immediate : SbfInstruction → Action (Unit {0})
mod_immediate inst =
    if immediate inst == 0 then raise (execution_error "Modulo by zero") else alu_immediate ◌%◌ inst

unfoldable pub mov_immediate : SbfInstruction → Action (Unit {0})
mov_immediate inst = set_register inst.dst (immediate inst)

-- The shifts take the amount modulo 64.
unfoldable pub shift_left : ℕ → ℕ → ℕ
shift_left x amount = x * 2 ^ (amount % 64) % u64_mod

unfoldable pub shift_right : ℕ → ℕ → ℕ
shift_right x amount = x / 2 ^ (amount % 64)

-- `(-(x as i64)) as u64`
unfoldable pub negate : ℕ → ℕ → ℕ
negate x imm = (u64_mod - x) % u64_mod

unfoldable pub alu_register : (ℕ → ℕ → ℕ) → SbfInstruction → Action (Unit {0})
alu_register f inst = do x ← register inst.dst; y ← register inst.src; set_register inst.dst (f x y)

unfoldable pub div_register : SbfInstruction → Action (Unit {0})
div_register inst = do
  y ← register inst.src
  if y == 0 then raise (execution_error "Division by zero") else alu_register ◌/◌ inst

unfoldable pub mov_register : SbfInstruction → Action (Unit {0})
mov_register inst = do y ← register inst.src; set_register inst.dst y

-- `(base as i64 + offset as i64) as usize`
unfoldable pub displaced : ℕ → ℕ → ℕ
unfolding sign_extend
displaced base offset = (base + sign_extend 16 offset) % u64_mod

unfoldable pub load : ℕ → (ℕ → Action ℕ) → SbfInstruction → Action (Unit {0})
load cost read inst = do
  base ← register inst.src
  charge cost
  value ← read (displaced base inst.offset)
  set_register inst.dst value

unfoldable pub load_byte : SbfInstruction → Action (Unit {0})
load_byte = load very_low_cost read_memory_u8

unfoldable pub load_half : SbfInstruction → Action (Unit {0})
load_half = load very_low_cost (read_memory 2)

unfoldable pub load_word : SbfInstruction → Action (Unit {0})
load_word = load very_low_cost (read_memory 4)

unfoldable pub load_double : SbfInstruction → Action (Unit {0})
load_double = load low_cost (read_memory 8)

-- The value that the store writes: the immediate, or the source register.
unfoldable pub stored_value : Bool → SbfInstruction → Action ℕ
stored_value true inst = pure (immediate inst)
stored_value false inst = register inst.src

unfoldable pub store :
    ℕ → ℕ → (ℕ → ℕ → Action (Unit {0})) → Bool → SbfInstruction → Action (Unit {0})
store cost width write from_imm inst = do
  base ← register inst.dst
  value ← stored_value from_imm inst
  charge cost
  write (displaced base inst.offset) (value % 256 ^ width)

unfoldable pub store_byte : Bool → SbfInstruction → Action (Unit {0})
store_byte = store very_low_cost 1 write_memory_u8

unfoldable pub store_half : Bool → SbfInstruction → Action (Unit {0})
store_half = store very_low_cost 2 (write_memory 2)

unfoldable pub store_word : Bool → SbfInstruction → Action (Unit {0})
store_word = store very_low_cost 4 (write_memory 4)

unfoldable pub store_double : Bool → SbfInstruction → Action (Unit {0})
store_double = store low_cost 8 (write_memory 8)

unfoldable pub jump : SbfInstruction → Action (Unit {0})
jump inst = do pc ← gets (λ vm. vm.pc); set_pc (displaced pc inst.offset)

unfoldable pub branch_immediate : (ℕ → ℕ → Bool) → SbfInstruction → Action (Unit {0})
branch_immediate test inst = do
  x ← register inst.dst
  if test x (immediate inst) then jump inst else pure tt

unfoldable pub branch_register : (ℕ → ℕ → Bool) → SbfInstruction → Action (Unit {0})
branch_register test inst = do
  x ← register inst.dst
  y ← register inst.src
  if test x y then jump inst else pure tt

-- A slice that cannot be read is not logged.
unfoldable pub push_log : ℕ → ℕ → Action (Unit {0})
push_log ptr len vm = elim (read_memory_slice ptr len vm).1 [
  | ok bytes ↦ (
    record vm {
      logs = vm.logs ++ record { address = vm.context.address; topics = []; log_data = bytes } ∷ [];
    },
    ok tt,
  )
  | fail e ↦ (vm, ok tt)
  | crash ↦ (vm, crash)
]

unfoldable pub log_syscall : Action (Unit {0})
log_syscall = do ptr ← register 1; len ← register 2; push_log ptr len; set_register 0 0

unfoldable pub sha256_syscall : Action (Unit {0})
sha256_syscall = do charge sha3_base_cost; set_register 0 0

unfoldable pub push_call : Action (Unit {0})
push_call vm = (record vm { call_stack = vm.pc ∷ vm.call_stack }, ok tt)

unfoldable pub internal_call : SbfInstruction → Action (Unit {0})
internal_call inst = do push_call; set_pc (immediate inst)

-- The `match` on the syscall, under the limit on the depth.
unfoldable pub enter : SbfInstruction → Action (Unit {0})
enter inst = do
  depth ← gets (λ vm. length vm.call_stack)
  if leb max_call_depth depth
      then raise stack_overflow
      else if inst.imm == 1
      then log_syscall
      else if inst.imm == 2
      then sha256_syscall
      else internal_call inst

unfoldable pub call : SbfInstruction → Action (Unit {0})
call inst = do charge call_cost; enter inst

abbrev pub exit_to : List ℕ → Action Bool
exit_to [] vm = (vm, ok false)
exit_to (return_addr ∷ rest) vm = (record vm { call_stack = rest; pc = return_addr }, ok true)

unfoldable pub exit : Action Bool
exit vm = exit_to vm.call_stack vm
