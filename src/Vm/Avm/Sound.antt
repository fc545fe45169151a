-- ===== src/Vm/Avm/Sound.antt =====
-- A whole step keeps the interpreter sound.
-- The code is crates/frychain-vm/src/avm.rs.
use fry_chain.Vm.Action.Keeps.{AllKeep, select-Keeps, and_continue-Keeps, raise-Keeps, pure-Keeps}
use fry_chain.Vm.Action.{select}
use fry_chain.Vm.Action.{raise}
use fry_chain.Vm.Avm.Instructions.{instruction_rules}
use fry_chain.Vm.Avm.Keeps.{keeping, Keeps, IsSound, Later, avm_discipline}
use fry_chain.Prelude.{ℕ, List}
use fry_chain.Vm.Avm.{Avm}
use fry_chain.Vm.Avm.Run.{instructions, step}
use fry_chain.Vm.Types.{invalid_opcode}
use fry_chain.Vm.Avm.Instructions.{fetch-Keeps}

module _ (sha2 sha3 : List ℕ → List ℕ) where
  instructions-Keeps : AllKeep avm_discipline (instructions sha2 sha3)
  unfolding instructions
  instructions-Keeps = search (instruction_rules, and_continue-Keeps, pure-Keeps)

  -- What happens after the opcode has been read and paid for.
  pub dispatch-Keeps :
      (opcode : ℕ) → Keeps (select opcode (instructions sha2 sha3) (raise (invalid_opcode opcode)))
  dispatch-Keeps opcode =
      select-Keeps opcode (instructions sha2 sha3) (raise (invalid_opcode opcode))
        instructions-Keeps (raise-Keeps (invalid_opcode opcode))

  pub step-Keeps : Keeps (step sha2 sha3)
  unfolding step
  step-Keeps = search (keeping, fetch-Keeps, dispatch-Keeps)

  -- One step from a state whose stack is no deeper than 1000 values and whose gas meter is valid
  -- leaves it so, whatever the instruction and however it ends; it changes neither the code nor the
  -- gas limit, and gives no gas back.
  pub step-IsSound :
      (vm : Avm) → IsSound vm → IsSound (step sha2 sha3 vm).0 × Later vm (step sha2 sha3 vm).0
  step-IsSound = step-Keeps.keeps
