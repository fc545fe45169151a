-- ===== src/Vm/Avm/Run.antt =====
-- crates/frychain-vm/src/avm.rs: `step` and `execute`.
use fry_chain.Vm.Action.{and_continue, select, run_loop}
use fry_chain.Words.Bytes.{le_bytes}
use fry_chain.Vm.Action.{Ended, ok, fail, crash, ◌>>=◌, ◌>>◌, pure, raise, gets, index_or_crash}
use fry_chain.Vm.Gas.{base_cost}
use fry_chain.Vm.Types.{
  invalid_opcode, execution_error, VmResult, success_result, failure_result, ExecutionContext,
}
use fry_chain.Vm.Avm.{
  StackValue, uint64, byte_string, Avm, new_avm, Action, charge, set_pc, to_bool,
}
use fry_chain.Vm.Avm.Ops.{
  intcblock, bytecblock, intc, bytec, push_int_constant, push_byte_constant, add, sub, div, mul,
  modulo, logic_and, logic_or, logic_not, equals, dup, discard, swap, err, assert, bnz, bz, branch,
  hash_with, app_global_get, app_global_put, log, len, concat,
}
use fry_chain.Prelude.{
  ℕ, ◌+◌, Bool, false, Option, none, some, List, [], ◌∷◌, ltb, leb, if◌then◌else◌, length,
  get_elem?,
}

-- The bytes of the value on top: eight little-endian bytes of an integer, nothing if the stack is
-- empty.
unfoldable pub top_bytes : List StackValue → List ℕ
top_bytes [] = []
top_bytes (uint64 n ∷ rest) = le_bytes 8 n
top_bytes (byte_string b ∷ rest) = b

unfoldable pub top_bool : List StackValue → Bool
unfolding to_bool
top_bool [] = false
top_bool (v ∷ rest) = to_bool v

unfoldable pub final_result : Avm → VmResult
unfolding top_bytes top_bool success_result
final_result vm = record (success_result vm.gas_meter.used (top_bytes vm.stack)) {
  success = top_bool vm.stack;
  logs = vm.logs;
}

-- `self.bytecode[self.pc]`, then `self.pc += 1`
unfoldable pub fetch : Action ℕ
fetch = do
  pc ← gets (λ vm. vm.pc)
  bytecode ← gets (λ vm. vm.bytecode)
  opcode ← index_or_crash (get_elem? bytecode pc)
  set_pc (pc + 1)
  pure opcode

-- `none` is a panic.
abbrev pub reported : Avm × Ended (Unit {0}) → Option VmResult
reported (vm, ok _) = some (final_result vm)
reported (vm, fail e) = some (failure_result vm.gas_meter.used e)
reported (vm, crash) = none

module _ (sha2 sha3 : List ℕ → List ℕ) where
  unfoldable pub instructions : List (ℕ × Action Bool)
  instructions =
      (0x20, and_continue intcblock)
      ∷ (0x21, and_continue bytecblock)
      ∷ (0x22, and_continue intc)
      ∷ (0x23, and_continue bytec)
      ∷ (0x24, and_continue (push_int_constant 0))
      ∷ (0x25, and_continue (push_int_constant 1))
      ∷ (0x26, and_continue (push_int_constant 2))
      ∷ (0x27, and_continue (push_int_constant 3))
      ∷ (0x28, and_continue (push_byte_constant 0))
      ∷ (0x29, and_continue (push_byte_constant 1))
      ∷ (0x2a, and_continue (push_byte_constant 2))
      ∷ (0x2b, and_continue (push_byte_constant 3))
      ∷ (0x08, and_continue add)
      ∷ (0x09, and_continue sub)
      ∷ (0x0a, and_continue div)
      ∷ (0x0b, and_continue mul)
      ∷ (0x0c, and_continue modulo)
      ∷ (0x10, and_continue logic_and)
      ∷ (0x11, and_continue logic_or)
      ∷ (0x12, and_continue logic_not)
      ∷ (0x13, and_continue equals)
      ∷ (0x48, and_continue dup)
      ∷ (0x4a, and_continue discard)
      ∷ (0x4f, and_continue swap)
      ∷ (0x00, and_continue err)
      ∷ (0x43, pure false)
      ∷ (0x44, and_continue assert)
      ∷ (0x40, and_continue bnz)
      ∷ (0x41, and_continue bz)
      ∷ (0x42, and_continue branch)
      ∷ (0x01, and_continue (hash_with sha2))
      ∷ (0x02, and_continue (hash_with sha3))
      ∷ (0x03, and_continue (hash_with sha3))
      ∷ (0x60, and_continue app_global_get)
      ∷ (0x61, and_continue app_global_put)
      ∷ (0xb0, and_continue log)
      ∷ (0x50, and_continue len)
      ∷ (0x51, and_continue concat)
      ∷ []

  unfoldable pub step : Action Bool
  step = do
    opcode ← fetch
    charge base_cost
    select opcode instructions (raise (invalid_opcode opcode))

  -- The main loop, which stops at the end of the code; `none` means that the rounds ran out.
  unfoldable pub run : ℕ → Avm → Option (Avm × Ended (Unit {0}))
  run = run_loop (λ vm. leb (length vm.bytecode) vm.pc) step

  -- `AVMInterpreter::execute` on a new interpreter: `none` means that the rounds ran out.
  unfoldable pub execute : ℕ → List ℕ → ExecutionContext → Option (Option VmResult)
  execute rounds [] context = some (some (failure_result 0 (execution_error "Empty bytecode")))
  execute rounds (version ∷ code) context =
      if ltb 10 version
      then some (some (failure_result 0 (execution_error "Unsupported TEAL version")))
      else elim (run rounds (record (new_avm (version ∷ code) context) { pc = 1 })) [
        | none ↦ none
        | some stopped ↦ some (reported stopped)
      ]
