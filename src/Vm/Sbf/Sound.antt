-- ===== src/Vm/Sbf/Sound.antt =====
-- A whole step keeps the register machine sound.
-- The code is crates/frychain-vm/src/sbf.rs.
use fry_chain.Vm.Gas.{very_low_cost, low_cost, base_cost}
use fry_chain.Vm.Types.{invalid_opcode}
use fry_chain.Vm.Action.Keeps.{
  keeping as actions, raise-Keeps, AllKeep, select-Keeps, and_continue-Keeps, bind-Returns-Keeps,
  bind-Keeps,
}
use fry_chain.Vm.Sbf.{SbfInstruction, SbfVm, set_register, set_pc, charge}
use fry_chain.Vm.Sbf.Decode.{IsEncodable}
use fry_chain.Vm.Sbf.Ops.{
  push_log, log_syscall, sha256_syscall, push_call, internal_call, call, exit, load_byte, load_half,
  load_word, load_double, store_byte, store_half, store_word, store_double, exit_to, enter, load,
  store,
}
use fry_chain.Vm.Sbf.Memory.{read_memory_u8, read_memory, write_memory_u8, write_memory}
use fry_chain.Vm.Sbf.Heap.{
  read_memory_u8-Keeps, read_memory_u8-Returns, read_memory-Keeps, read_memory-Returns,
  write_memory_u8-Keeps, write_memory-Keeps,
}
use fry_chain.Vm.Sbf.Instructions.{
  load-Keeps, store-Keeps, jump-Keeps, alu_immediate-Keeps, branch_immediate-Keeps,
  alu_register-Keeps, branch_register-Keeps, div_immediate-Keeps, mod_immediate-Keeps,
  mov_immediate-Keeps, div_register-Keeps, mov_register-Keeps, word_ops,
}
use fry_chain.Vm.Sbf.Keeps.{
  IsWord, IsSound, Later, Later-refl, Keeps, sbf_discipline, charge-Keeps, set_pc-Keeps,
  register-Keeps, set_register-Keeps, Returns,
}
use fry_chain.Vm.Sbf.Run.{alu_arms, memory_arms, control_arms, dispatch, fetch, step}
use fry_chain.Prelude.{ℕ, ◌%◌, ◌^◌, ◌≤◌, ◌≡◌, refl, Bool, List, [], ◌∷◌, arith, All-get_elem?}
use fry_chain.Vm.Action.{◌>>◌}

push_log-Keeps : (ptr len : ℕ) → Keeps (push_log ptr len)
unfolding push_log
push_log-Keeps ptr len = record { keeps = λ vm s. ground arith }

zero_result-Keeps : Keeps (set_register 0 0)
zero_result-Keeps = set_register-Keeps 0 0 (omega arith)

log_syscall-Keeps : Keeps log_syscall
unfolding log_syscall
log_syscall-Keeps = search (actions, register-Keeps, push_log-Keeps, zero_result-Keeps)

sha256_syscall-Keeps : Keeps sha256_syscall
unfolding sha256_syscall
sha256_syscall-Keeps = search (actions, charge-Keeps, zero_result-Keeps)

-- A call is pushed only below the limit on the depth.
enter-Keeps : (inst : SbfInstruction) → Keeps (enter inst)
unfolding enter internal_call push_call set_pc
enter-Keeps inst = record {
  keeps = λ vm s. ground (arith, log_syscall-Keeps.keeps vm s, sha256_syscall-Keeps.keeps vm s);
}

call-Keeps : (inst : SbfInstruction) → Keeps (call inst)
unfolding call
call-Keeps inst = search (actions, charge-Keeps, enter-Keeps)

exit-Keeps : Keeps exit
unfolding exit
exit-Keeps = record { keeps = λ vm s. exit_sound vm s vm.call_stack refl }
  where
    exit_sound :
        (vm : SbfVm)
        → IsSound vm
        → (frames : List ℕ) → vm.call_stack ≡ frames
        → IsSound (exit_to frames vm).0 × Later vm (exit_to frames vm).0
    exit_sound vm s [] e = ground (arith, Later-refl vm)
    exit_sound vm s (return_addr ∷ rest) e = ground arith

module _ (inst : SbfInstruction) where
  load_byte-Keeps : Keeps (load_byte inst)
  unfolding load_byte
  load_byte-Keeps =
      load-Keeps inst very_low_cost read_memory_u8 read_memory_u8-Keeps read_memory_u8-Returns

  load_wide-Keeps : (cost width : ℕ) → width ≤ 8 → Keeps (load cost (read_memory width) inst)
  load_wide-Keeps cost width h =
      load-Keeps inst cost (read_memory width) (read_memory-Keeps width)
        (λ addr. read_memory-Returns width addr h)

  store_byte-Keeps : (b : Bool) → Keeps (store_byte b inst)
  unfolding store_byte
  store_byte-Keeps b =
      store-Keeps inst very_low_cost 1 write_memory_u8 b
        (λ addr val h. write_memory_u8-Keeps addr (val % 256 ^ 1) (omega arith))

  store_wide-Keeps :
      (cost width : ℕ) (b : Bool)
      → IsWord width
      → Keeps (store cost width (write_memory width) b inst)
  store_wide-Keeps cost width b hw =
      store-Keeps inst cost width (write_memory width) b
        (λ addr val h. write_memory-Keeps width addr (val % 256 ^ width) hw h)

  load_half-Keeps : Keeps (load_half inst)
  unfolding load_half
  load_half-Keeps = load_wide-Keeps very_low_cost 2 (omega arith)

  load_word-Keeps : Keeps (load_word inst)
  unfolding load_word
  load_word-Keeps = load_wide-Keeps very_low_cost 4 (omega arith)

  load_double-Keeps : Keeps (load_double inst)
  unfolding load_double
  load_double-Keeps = load_wide-Keeps low_cost 8 (omega arith)

  store_half-Keeps : (b : Bool) → Keeps (store_half b inst)
  unfolding store_half
  store_half-Keeps b = store_wide-Keeps very_low_cost 2 b (omega arith)

  store_word-Keeps : (b : Bool) → Keeps (store_word b inst)
  unfolding store_word
  store_word-Keeps b = store_wide-Keeps very_low_cost 4 b (omega arith)

  store_double-Keeps : (b : Bool) → Keeps (store_double b inst)
  unfolding store_double
  store_double-Keeps b = store_wide-Keeps low_cost 8 b (omega arith)

  memory_arms-Keeps : AllKeep sbf_discipline (memory_arms inst)
  memory_arms-Keeps = search (
    and_continue-Keeps, load_byte-Keeps, load_half-Keeps, load_word-Keeps, load_double-Keeps,
    store_byte-Keeps, store_half-Keeps, store_word-Keeps, store_double-Keeps,
  )

  control_arms-Keeps : AllKeep sbf_discipline (control_arms inst)
  control_arms-Keeps = search (
    and_continue-Keeps, jump-Keeps, branch_immediate-Keeps, branch_register-Keeps, call-Keeps,
    exit-Keeps,
  )

  alu_arms-Keeps : IsEncodable inst → AllKeep sbf_discipline (alu_arms inst)
  alu_arms-Keeps v = search (
    and_continue-Keeps, alu_immediate-Keeps, alu_register-Keeps, div_immediate-Keeps,
    mod_immediate-Keeps, mov_immediate-Keeps, div_register-Keeps, mov_register-Keeps, word_ops,
  )

  pub dispatch-Keeps : IsEncodable inst → Keeps (dispatch inst)
  unfolding dispatch
  dispatch-Keeps v =
      let other = raise-Keeps (invalid_opcode inst.opcode) in
      select-Keeps inst.opcode (alu_arms inst) _ (alu_arms-Keeps v) (
        select-Keeps inst.opcode (memory_arms inst) _ memory_arms-Keeps
          (select-Keeps inst.opcode (control_arms inst) _ control_arms-Keeps other))

pub fetch-Keeps : Keeps fetch
unfolding fetch
fetch-Keeps = search (actions, set_pc-Keeps)

-- The instruction that is fetched is one of the program.
pub fetch-Returns : Returns IsEncodable fetch
unfolding fetch set_pc
fetch-Returns = record {
  returns = λ vm s a e. ground (arith, All-get_elem? IsEncodable vm.instructions vm.pc a s.code);
}

pub charged-Keeps :
    (inst : SbfInstruction) → IsEncodable inst → Keeps (charge base_cost >> dispatch inst)
charged-Keeps inst v =
    bind-Keeps (charge base_cost) (λ _. dispatch inst) (charge-Keeps base_cost)
      (λ _. dispatch-Keeps inst v)

pub step-Keeps : Keeps step
unfolding step
step-Keeps =
    bind-Returns-Keeps sbf_discipline IsEncodable fetch (λ inst. charge base_cost >> dispatch inst)
      fetch-Keeps fetch-Returns charged-Keeps

-- One step from a state with eleven 64-bit registers, 32768 bytes of heap, a call stack of at most 64
-- return addresses, a valid gas meter and instructions whose fields have their widths leaves it such a
-- state, whatever the instruction and however it ends; it changes neither the code nor the gas limit,
-- and gives no gas back.
pub sbf_step-IsSound : (vm : SbfVm) → IsSound vm → IsSound (step vm).0 × Later vm (step vm).0
sbf_step-IsSound = step-Keeps.keeps
