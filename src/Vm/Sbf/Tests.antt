-- ===== src/Vm/Sbf/Tests.antt =====
-- Concrete inputs at which the theorems about the register machine are applied.
use fry_chain.Words.{u64_mod}
use fry_chain.Core.Address.{zero_address}
use fry_chain.Vm.Types.{ExecutionContext, VmResult}
use fry_chain.Vm.Action.{ok, crash}
use fry_chain.Vm.Action.Loop.{GasWithin, enough_rounds}
use fry_chain.Vm.Sbf.{SbfInstruction, SbfVm, loaded, new_sbf, parse_elf, with_program}
use fry_chain.Vm.Sbf.Decode.{IsEncodable, assemble, parse_elf-assemble}
use fry_chain.Vm.Sbf.Keeps.{IsSound, Later, IsByte}
use fry_chain.Vm.Sbf.Memory.{read_memory, read_memory_slice, write_memory}
use fry_chain.Vm.Sbf.Access.{read_memory-write_memory, wrapped_access_panics}
use fry_chain.Vm.Sbf.Run.{prepared, step, execute}
use fry_chain.Vm.Sbf.Sound.{sbf_step-IsSound}
use fry_chain.Vm.Sbf.Halts.{sbf_execute_halts, prepared-IsSound}
use fry_chain.Prelude.{
  ℕ, ◌+◌, ◌-◌, ◌≤◌, ◌<◌, ◌≡◌, ◌⊎◌, refl, ap, false, Option, some, List, [], ◌∷◌, ◌++◌, arith,
  length, replicate, get_elem?, All,
}

abbrev sbf_call : ExecutionContext
sbf_call = record {
  caller = zero_address;
  address = zero_address;
  value = 0;
  gas_limit = 1000;
  depth = 0;
  is_static = false;
  block_height = 0;
  block_timestamp = 0;
  chain_id = 1;
}

abbrev mov : ℕ → ℕ → SbfInstruction
mov dst imm = record { opcode = 0xb7; dst = dst; src = 0; offset = 0; imm = imm }

-- Ten, plus five, minus fifteen: the program of `test_sbf_arithmetic`.
abbrev arithmetic : List SbfInstruction
arithmetic =
    mov 0 10
    ∷ record { opcode = 0x07; dst = 0; src = 0; offset = 0; imm = 5 }
    ∷ record { opcode = 0x17; dst = 0; src = 0; offset = 0; imm = 15 }
    ∷ record { opcode = 0x95; dst = 0; src = 0; offset = 0; imm = 0 }
    ∷ []

arithmetic-IsEncodable : All IsEncodable arithmetic
arithmetic-IsEncodable = ground arith

abbrev file : List ℕ
file = (0x7f ∷ b'E' ∷ b'L' ∷ b'F' ∷ replicate 60 0) ++ (assemble arithmetic ++ 1 ∷ 2 ∷ [])

parse_elf-assemble_example : parse_elf file ≡ some arithmetic
parse_elf-assemble_example =
    parse_elf-assemble (replicate 60 0) (1 ∷ 2 ∷ []) arithmetic refl (omega arith) (λ e. cc)
      arithmetic-IsEncodable

abbrev machine : SbfVm
machine = prepared (loaded arithmetic sbf_call)

machine-IsSound : IsSound machine
machine-IsSound = prepared-IsSound arithmetic sbf_call arithmetic-IsEncodable (omega arith)

sbf_step-IsSound_example : IsSound (step machine).0 × Later machine (step machine).0
sbf_step-IsSound_example = sbf_step-IsSound machine machine-IsSound

file-IsBytes : All IsByte file
file-IsBytes = ground arith

sbf_execute_halts_example :
    (o : Option VmResult) × (execute (enough_rounds sbf_call) (loaded arithmetic sbf_call) ≡ some o)
    × GasWithin sbf_call.gas_limit o
unfolding new_sbf
sbf_execute_halts_example =
    sbf_execute_halts file sbf_call (loaded arithmetic sbf_call) file-IsBytes (omega arith) (
      ap (with_program sbf_call) (
        parse_elf-assemble (replicate 60 0) (1 ∷ 2 ∷ []) arithmetic refl (omega arith) (λ e. cc)
          arithmetic-IsEncodable))

-- A machine with a heap of sixteen bytes.
abbrev small : SbfVm
small = record (loaded arithmetic sbf_call) { heap = replicate 16 7 }

read_memory-write_memory_example :
    let (vm', written) = write_memory 4 8 0x01020304 small in
    (written ≡ ok tt)
    × ((read_memory 4 8 vm').1 ≡ ok 0x01020304)
    × (length vm'.heap ≡ length small.heap)
    × ((i : ℕ) → (i < 8) ⊎ (8 + 4 ≤ i) → get_elem? vm'.heap i ≡ get_elem? small.heap i)
read_memory-write_memory_example =
    read_memory-write_memory small 4 8 0x01020304 (omega arith) (omega arith) (omega arith)

wrapped_access_panics_example :
    (read_memory 4 (u64_mod - 2) small ≡ (small, crash))
    × (read_memory_slice (u64_mod - 2) 4 small ≡ (small, crash))
    × (write_memory 4 (u64_mod - 2) 7 small ≡ (small, crash))
wrapped_access_panics_example =
    wrapped_access_panics small 4 (u64_mod - 2) 7 (omega arith) (omega arith) (omega arith)
      (omega arith)
