-- ===== src/Vm/Sbf/Run.antt =====
-- crates/frychain-vm/src/sbf.rs: `step` and `execute`.
use fry_chain.Words.{u64_mod, wrapping_add, wrapping_sub, wrapping_mul}
use fry_chain.Words.Bytes.{le_bytes}
use fry_chain.Vm.Gas.{base_cost}
use fry_chain.Vm.Types.{invalid_opcode, VmResult, success_result, failure_result}
use fry_chain.Vm.Action.{
  Ended, ok, fail, crash, ◌>>=◌, ◌>>◌, pure, raise, gets, index_or_crash, and_continue, select,
  run_loop,
}
use fry_chain.Vm.Sbf.{SbfInstruction, SbfVm, Action, charge, set_pc, stack_size}
use fry_chain.Vm.Sbf.Ops.{
  alu_immediate, div_immediate, mod_immediate, mov_immediate, shift_left, shift_right, negate,
  alu_register, div_register, mov_register, load_byte, load_half, load_word, load_double,
  store_byte, store_half, store_word, store_double, jump, branch_immediate, branch_register, call,
  exit,
}
use fry_chain.Prelude.{
  ℕ, ◌+◌, Bool, true, false, not, Option, none, some, List, [], ◌∷◌, bit_or, bit_and, bit_xor, ltb,
  leb, ◌==◌, length, get_elem?, get_or, set_elem,
}

abbrev pub alu_arms : SbfInstruction → List (ℕ × Action Bool)
alu_arms inst =
    (0x07, and_continue (alu_immediate (wrapping_add u64_mod) inst))
    ∷ (0x17, and_continue (alu_immediate (wrapping_sub u64_mod) inst))
    ∷ (0x27, and_continue (alu_immediate (wrapping_mul u64_mod) inst))
    ∷ (0x37, and_continue (div_immediate inst))
    ∷ (0x47, and_continue (alu_immediate bit_or inst))
    ∷ (0x57, and_continue (alu_immediate bit_and inst))
    ∷ (0x67, and_continue (alu_immediate shift_left inst))
    ∷ (0x77, and_continue (alu_immediate shift_right inst))
    ∷ (0x87, and_continue (alu_immediate negate inst))
    ∷ (0x97, and_continue (mod_immediate inst))
    ∷ (0xa7, and_continue (alu_immediate bit_xor inst))
    ∷ (0xb7, and_continue (mov_immediate inst))
    ∷ (0x0f, and_continue (alu_register (wrapping_add u64_mod) inst))
    ∷ (0x1f, and_continue (alu_register (wrapping_sub u64_mod) inst))
    ∷ (0x2f, and_continue (alu_register (wrapping_mul u64_mod) inst))
    ∷ (0x3f, and_continue (div_register inst))
    ∷ (0xbf, and_continue (mov_register inst))
    ∷ []

abbrev pub memory_arms : SbfInstruction → List (ℕ × Action Bool)
memory_arms inst =
    (0x71, and_continue (load_byte inst))
    ∷ (0x69, and_continue (load_half inst))
    ∷ (0x61, and_continue (load_word inst))
    ∷ (0x79, and_continue (load_double inst))
    ∷ (0x72, and_continue (store_byte true inst))
    ∷ (0x73, and_continue (store_byte false inst))
    ∷ (0x6a, and_continue (store_half true inst))
    ∷ (0x6b, and_continue (store_half false inst))
    ∷ (0x62, and_continue (store_word true inst))
    ∷ (0x63, and_continue (store_word false inst))
    ∷ (0x7a, and_continue (store_double true inst))
    ∷ (0x7b, and_continue (store_double false inst))
    ∷ []

abbrev pub control_arms : SbfInstruction → List (ℕ × Action Bool)
control_arms inst =
    (0x05, and_continue (jump inst))
    ∷ (0x15, and_continue (branch_immediate (λ x imm. x == imm) inst))
    ∷ (0x1d, and_continue (branch_register (λ x y. x == y) inst))
    ∷ (0x25, and_continue (branch_immediate (λ x imm. ltb imm x) inst))
    ∷ (0x35, and_continue (branch_immediate (λ x imm. leb imm x) inst))
    ∷ (0x55, and_continue (branch_immediate (λ x imm. not (x == imm)) inst))
    ∷ (0xa5, and_continue (branch_immediate ltb inst))
    ∷ (0xb5, and_continue (branch_immediate leb inst))
    ∷ (0x85, and_continue (call inst))
    ∷ (0x95, exit)
    ∷ []

-- The `match` on the opcode; no two arms have the same one.
unfoldable pub dispatch : SbfInstruction → Action Bool
dispatch inst = select inst.opcode (alu_arms inst) (
    select inst.opcode (memory_arms inst)
      (select inst.opcode (control_arms inst) (raise (invalid_opcode inst.opcode))))

-- `self.instructions[self.pc]`, then `self.pc += 1`
unfoldable pub fetch : Action SbfInstruction
fetch = do
  pc ← gets (λ vm. vm.pc)
  instructions ← gets (λ vm. vm.instructions)
  inst ← index_or_crash (get_elem? instructions pc)
  set_pc (pc + 1)
  pure inst

unfoldable pub step : Action Bool
step = do inst ← fetch; charge base_cost; dispatch inst

-- The main loop, which stops at the end of the code; `none` means that the rounds ran out.
unfoldable pub run : ℕ → SbfVm → Option (SbfVm × Ended (Unit {0}))
run = run_loop (λ vm. leb (length vm.instructions) vm.pc) step

-- The registers at the start: R1 points to the input, R10 is the stack pointer.
unfoldable pub prepared : SbfVm → SbfVm
prepared vm = record vm { registers = set_elem (set_elem vm.registers 1 0) 10 stack_size }

unfoldable pub final_result : SbfVm → VmResult
unfolding success_result
final_result vm =
    let r0 = get_or vm.registers 0 0 in
    record (success_result vm.gas_meter.used (le_bytes 8 r0)) { success = r0 == 0; logs = vm.logs }

-- `none` is a panic.
abbrev pub reported : SbfVm × Ended (Unit {0}) → Option VmResult
reported (vm, ok _) = some (final_result vm)
reported (vm, fail e) = some (failure_result vm.gas_meter.used e)
reported (vm, crash) = none

-- `SbfVM::execute`: `none` means that the rounds ran out.
unfoldable pub execute : ℕ → SbfVm → Option (Option VmResult)
unfolding prepared
execute rounds vm = elim (run rounds (prepared vm)) [
  | none ↦ none
  | some stopped ↦ some (reported stopped)
]
