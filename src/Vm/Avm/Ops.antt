-- ===== src/Vm/Avm/Ops.antt =====
-- crates/frychain-vm/src/avm.rs: the instructions that `step` dispatches on. SHA2-256 and SHA3-256
-- are the arguments `sha2` and `sha3`.
use fry_chain.Vm.Action.{◌>>=◌, ◌>>◌, pure, raise, gets, ok, crash, fail}
use fry_chain.Words.{u64_mod, wrapping_add, wrapping_sub, wrapping_mul}
use fry_chain.HashMap.{lookup_or, insert}
use fry_chain.Vm.Gas.{
  sha3_base_cost, sha3_word_cost, sload_cost, sstore_set_cost, log_cost, log_data_cost,
}
use fry_chain.Vm.Types.{stack_underflow, execution_error}
use fry_chain.Vm.Avm.{
  StackValue, uint64, byte_string, Action, charge, push, pop, as_uint64, as_bytes, to_bool, set_pc,
  read_varuint, read_i16, read_operand,
}
use fry_chain.Prelude.{
  ℕ, zero, suc, ◌+◌, ◌-◌, ◌/◌, ◌%◌, ◌^◌, Bool, not, ◌&&◌, ◌||◌, List, [], ◌∷◌, ◌++◌, ltb, leb, ◌==◌,
  if◌then◌else◌, length, get_or, take, drop, nat_eq, list_eq, string_eq,
}
use fry_chain.Core.Address.{address_eq}

abbrev pub advance : ℕ → Action (Unit {0})
advance n = do pc ← gets (λ vm. vm.pc); set_pc (wrapping_add u64_mod pc n)

abbrev pub add_int_constant : ℕ → Action (Unit {0})
add_int_constant n vm = (record vm { int_constants = vm.int_constants ++ n ∷ [] }, ok tt)

abbrev pub add_byte_constant : List ℕ → Action (Unit {0})
add_byte_constant b vm = (record vm { byte_constants = vm.byte_constants ++ b ∷ [] }, ok tt)

-- The loop of `intcblock`. The program counter still stands at the count when it begins.
unfoldable pub int_constants_loop : ℕ → Action (Unit {0})
int_constants_loop zero = pure tt
int_constants_loop (suc count) = do
  (val, br) ← read_varuint
  add_int_constant val
  advance br
  int_constants_loop count

unfoldable pub intcblock : Action (Unit {0})
intcblock = do (count, bytes_read) ← read_varuint; int_constants_loop count; advance bytes_read

-- `self.bytecode[self.pc..self.pc + len]` panics beyond the end.
abbrev pub slice : ℕ → Action (List ℕ)
slice len vm = (
  vm,
  if leb (vm.pc + len) (length vm.bytecode) then ok (take len (drop vm.pc vm.bytecode)) else crash,
)

unfoldable pub byte_constants_loop : ℕ → Action (Unit {0})
byte_constants_loop zero = pure tt
byte_constants_loop (suc count) = do
  (len, br) ← read_varuint
  advance br
  bytes ← slice len
  add_byte_constant bytes
  advance len
  byte_constants_loop count

unfoldable pub bytecblock : Action (Unit {0})
bytecblock = do (count, bytes_read) ← read_varuint; advance bytes_read; byte_constants_loop count

-- `intc_0` to `intc_3`, and the rest of `intc`: a constant that is not there is 0.
unfoldable pub push_int_constant : ℕ → Action (Unit {0})
push_int_constant idx = do
  constants ← gets (λ vm. vm.int_constants)
  push (uint64 (get_or constants idx 0))

unfoldable pub push_byte_constant : ℕ → Action (Unit {0})
push_byte_constant idx = do
  constants ← gets (λ vm. vm.byte_constants)
  push (byte_string (get_or constants idx []))

unfoldable pub intc : Action (Unit {0})
intc = do idx ← read_operand; push_int_constant idx

unfoldable pub bytec : Action (Unit {0})
bytec = do idx ← read_operand; push_byte_constant idx

-- The two operands of an instruction on integers: the second one is on top.
unfoldable pub pop_two : Action (ℕ × ℕ)
pop_two = do b ← pop >>= as_uint64; a ← pop >>= as_uint64; pure (a, b)

unfoldable pub add : Action (Unit {0})
add = do (a, b) ← pop_two; push (uint64 (wrapping_add u64_mod a b))

unfoldable pub sub : Action (Unit {0})
sub = do (a, b) ← pop_two; push (uint64 (wrapping_sub u64_mod a b))

unfoldable pub div : Action (Unit {0})
div = do
  (a, b) ← pop_two
  if b == 0 then raise (execution_error "Division by zero") else push (uint64 (a / b))

unfoldable pub mul : Action (Unit {0})
mul = do (a, b) ← pop_two; push (uint64 (wrapping_mul u64_mod a b))

unfoldable pub modulo : Action (Unit {0})
modulo = do
  (a, b) ← pop_two
  if b == 0 then raise (execution_error "Modulo by zero") else push (uint64 (a % b))

abbrev pub bit : Bool → StackValue
bit b = uint64 (if b then 1 else 0)

unfoldable pub logic_and : Action (Unit {0})
logic_and = do b ← pop; a ← pop; push (bit (to_bool a && to_bool b))

unfoldable pub logic_or : Action (Unit {0})
logic_or = do b ← pop; a ← pop; push (bit (to_bool a || to_bool b))

unfoldable pub logic_not : Action (Unit {0})
logic_not = do a ← pop; push (bit (not (to_bool a)))

unfoldable pub equals : Action (Unit {0})
equals = do (a, b) ← pop_two; push (bit (a == b))

abbrev pub dup_top : List StackValue → Action (Unit {0})
dup_top [] = raise stack_underflow
dup_top (v ∷ rest) = push v

unfoldable pub dup : Action (Unit {0})
dup = do stack ← gets (λ vm. vm.stack); dup_top stack

unfoldable pub discard : Action (Unit {0})
discard = do _ ← pop; pure tt

abbrev pub swap_top : List StackValue → Action (Unit {0})
swap_top (a ∷ b ∷ rest) vm = (record vm { stack = b ∷ a ∷ rest }, ok tt)
swap_top _ vm = (vm, fail stack_underflow)

unfoldable pub swap : Action (Unit {0})
swap = do stack ← gets (λ vm. vm.stack); swap_top stack

unfoldable pub err : Action (Unit {0})
err = raise (execution_error "Explicit error")

unfoldable pub assert : Action (Unit {0})
assert = do val ← pop; if to_bool val then pure tt else raise (execution_error "Assertion failed")

-- `(self.pc as i64 + offset as i64) as usize`, for the 16 bits of a two's complement `offset`
unfoldable pub target : ℕ → ℕ → ℕ
target pc offset =
    if ltb offset (2 ^ 15)
    then (pc + offset) % u64_mod
    else (pc + offset + u64_mod - 2 ^ 16) % u64_mod

unfoldable pub jump : ℕ → Action (Unit {0})
jump offset = do pc ← gets (λ vm. vm.pc); set_pc (target pc offset)

unfoldable pub bnz : Action (Unit {0})
bnz = do offset ← read_i16; cond ← pop; if to_bool cond then jump offset else pure tt

unfoldable pub bz : Action (Unit {0})
bz = do offset ← read_i16; cond ← pop; if to_bool cond then pure tt else jump offset

unfoldable pub branch : Action (Unit {0})
branch = do offset ← read_i16; jump offset

unfoldable pub hash_with : (List ℕ → List ℕ) → Action (Unit {0})
hash_with digest = do
  charge sha3_base_cost
  bytes ← pop >>= as_bytes
  charge (wrapping_mul u64_mod sha3_word_cost (wrapping_add u64_mod (length bytes) 31 / 32))
  push (byte_string (digest bytes))

unfoldable pub app_global_get : Action (Unit {0})
app_global_get = do
  charge sload_cost
  key ← pop >>= as_bytes
  state ← gets (λ vm. vm.global_state)
  push (lookup_or (uint64 0) key state)

abbrev pub store : List ℕ → StackValue → Action (Unit {0})
store key val vm = (record vm { global_state = insert key val vm.global_state }, ok tt)

unfoldable pub app_global_put : Action (Unit {0})
app_global_put = do charge sstore_set_cost; val ← pop; key ← pop >>= as_bytes; store key val

abbrev pub emit : List ℕ → Action (Unit {0})
emit bytes vm = (
  record vm {
    logs = vm.logs ++ record { address = vm.context.address; topics = []; log_data = bytes } ∷ [];
  },
  ok tt,
)

unfoldable pub log : Action (Unit {0})
log = do
  charge log_cost
  bytes ← pop >>= as_bytes
  charge (wrapping_mul u64_mod log_data_cost (length bytes))
  emit bytes

unfoldable pub len : Action (Unit {0})
len = do bytes ← pop >>= as_bytes; push (uint64 (length bytes))

unfoldable pub concat : Action (Unit {0})
concat = do b ← pop >>= as_bytes; a ← pop >>= as_bytes; push (byte_string (a ++ b))
