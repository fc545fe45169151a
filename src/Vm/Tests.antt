-- ===== src/Vm/Tests.antt =====
-- Concrete inputs at which the theorems about frychain-vm are applied.
use fry_chain.Vm.Action.Loop.{GasWithin, enough_rounds}
use fry_chain.Vm.Action.{ok}
use fry_chain.Vm.Gas.Meter.{IsValid}
use fry_chain.Vm.Avm.Constants.{Steps, goes, here, IsTruncated}
use fry_chain.Vm.Avm.Run.{step, instructions, fetch}
use fry_chain.Vm.Avm.{charge, new_avm, Avm, read_varuint, varuint_from, set_pc}
use fry_chain.Vm.Avm.Ops.{intcblock, int_constants_loop, advance}
use fry_chain.Prelude.{
  ℕ, inl, ℕ, ◌+◌, ◌/◌, ◌%◌, ◌≤◌, ◌≡◌, refl, true, false, Option, none, some, List, [], ◌∷◌, ◌++◌,
  arith, length, drop, replicate,
}
use fry_chain.Core.Address.{Address, standard}
use fry_chain.Vm.Types.{ExecutionContext, VmResult}
use fry_chain.Vm.Gas.{GasMeter, consume, sub_meter, remaining, return_gas}
use fry_chain.Vm.Avm.{Avm, new_avm}
use fry_chain.Vm.Avm.Keeps.{IsSound, Later}
use fry_chain.Vm.Avm.Run.{execute, step}
use fry_chain.Vm.Gas.Meter.{return_gas-sub_meter}
use fry_chain.Vm.Avm.Ops.{intcblock}
use fry_chain.Vm.Avm.Constants.{execute-truncated_panics, intcblock_shifts}
use fry_chain.Vm.Avm.Halts.{execute_halts}
use fry_chain.Vm.Avm.Sound.{step-IsSound}

abbrev toy_digest : List ℕ → List ℕ
toy_digest x = replicate 32 (length x % 256)

abbrev somebody : Address
somebody = record { addr_type = standard; bytes = replicate 32 3 }

abbrev call : ExecutionContext
call = record {
  caller = somebody;
  address = somebody;
  value = 0;
  gas_limit = 1000;
  depth = 0;
  is_static = false;
  block_height = 0;
  block_timestamp = 0;
  chain_id = 1;
}

-- Version 6: a block of the constants 5 and 3, both pushed, and their sum.
abbrev sum_program : List ℕ
sum_program = 6 ∷ 0x20 ∷ 2 ∷ 5 ∷ 3 ∷ 0x22 ∷ 0 ∷ 0x22 ∷ 1 ∷ 0x08 ∷ 0x43 ∷ []

abbrev half_used : GasMeter
half_used = record { limit = 1000; used = 500; refund = 20 }

-- The interpreter after the opcode of the block has been read.
abbrev at_block : Avm
at_block = record (new_avm sum_program call) { pc = 2; gas_meter = half_used }

half_used-IsValid : IsValid half_used
half_used-IsValid = record { within = omega arith; fits = omega arith }

at_block-IsSound : IsSound at_block
unfolding new_avm
at_block-IsSound = record { gas = half_used-IsValid; shallow = omega arith }

-- A nested call of the half-used meter that has used a tenth of what it was given.
abbrev nested : GasMeter
nested = record { limit = 400; used = 40; refund = 0 }

return_gas-sub_meter_example :
    ((consume half_used nested.limit).1 ≡ true)
    × (nested.limit ≤ 400)
    × (remaining half_used / 64 ≤ remaining (consume half_used nested.limit).0)
    × ((return_gas (consume half_used nested.limit).0 nested).used ≡ half_used.used + nested.used)
unfolding sub_meter remaining
return_gas-sub_meter_example =
    return_gas-sub_meter half_used nested 400 half_used-IsValid refl (omega arith)

step-IsSound_example :
    IsSound (step toy_digest toy_digest at_block).0
    × Later at_block (step toy_digest toy_digest at_block).0
step-IsSound_example = step-IsSound toy_digest toy_digest at_block at_block-IsSound

execute_halts_example :
    (o : Option VmResult) × (execute toy_digest toy_digest (enough_rounds call) sum_program call
      ≡ some o)
    × GasWithin call.gas_limit o
execute_halts_example = execute_halts toy_digest toy_digest sum_program call (omega arith)

intcblock_shifts_example :
    intcblock at_block
    ≡ (record at_block { int_constants = at_block.int_constants ++ 2 ∷ 5 ∷ []; pc = 5 }, ok tt)
unfolding new_avm
intcblock_shifts_example =
    intcblock_shifts at_block (5 ∷ []) 3 (drop 5 sum_program) refl (omega arith) (omega arith, tt)
      (omega arith)

-- A block of one constant, then intc without its operand.
abbrev cut_program : List ℕ
cut_program = 6 ∷ 0x20 ∷ 1 ∷ 5 ∷ 0x22 ∷ []

abbrev after_block : Avm
after_block = (step toy_digest toy_digest (record (new_avm cut_program call) { pc = 1 })).0

cut_program-Steps :
    Steps toy_digest toy_digest 1 (record (new_avm cut_program call) { pc = 1 }) after_block
unfolding step instructions fetch charge consume intcblock int_constants_loop advance read_varuint
    varuint_from new_avm set_pc
cut_program-Steps = goes refl refl here

cut_program-IsTruncated : IsTruncated toy_digest toy_digest after_block
unfolding step instructions fetch charge consume intcblock int_constants_loop advance read_varuint
    varuint_from new_avm set_pc
cut_program-IsTruncated = record { last = inl refl; funded = omega arith; fits = omega arith }

execute-truncated_panics_example : execute toy_digest toy_digest 2 cut_program call ≡ some none
execute-truncated_panics_example =
    execute-truncated_panics toy_digest toy_digest 0 1 6 (0x20 ∷ 1 ∷ 5 ∷ 0x22 ∷ []) call after_block
      (omega arith) cut_program-Steps cut_program-IsTruncated
