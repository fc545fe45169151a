-- ===== src/Vm/Sbf/Halts.antt =====
-- Every program of the register machine comes to an end.
-- The code is crates/frychain-vm/src/sbf.rs.
use fry_chain.Words.{u64_mod}
use fry_chain.Vm.Gas.{base_cost, new_meter}
use fry_chain.Vm.Gas.Meter.{consume_lem}
use fry_chain.Vm.Types.{VmResult, ExecutionContext, failure_result, success_result}
use fry_chain.Vm.Action.{Ended, ok, fail, crash, ◌>>◌}
use fry_chain.Vm.Action.Loop.{
  Spends, Spends-bind_first, Spends-bind-Returns, run_loop_halts, GasWithin, enough_rounds,
}
use fry_chain.Vm.Sbf.{
  SbfInstruction, SbfVm, new_sbf, loaded, parse_elf, decode, decode_all, or_minimal,
  minimal_program, charge, zeroed, heap_size, with_program,
}
use fry_chain.Vm.Sbf.Decode.{IsEncodable}
use fry_chain.Vm.Sbf.Keeps.{IsSound, IsByte, sbf_discipline, charge-Keeps}
use fry_chain.Vm.Sbf.Sound.{fetch-Keeps, fetch-Returns, dispatch-Keeps, step-Keeps}
use fry_chain.Vm.Sbf.Run.{dispatch, fetch, step, run, execute, prepared, reported, final_result}
use fry_chain.Prelude.{
  ℕ, zero, suc, ◌-◌, ◌≤◌, ◌<◌, ◌≡◌, refl, inl, inr, Option, none, some, List, [], ◌∷◌, arith, All,
  All-drop, All-replicate, length, drop, length-replicate, leb, Option-cases, subst, ◌/◌, min, same,
}

charge-Spends : (n : ℕ) → Spends sbf_discipline n (charge n)
unfolding charge
charge-Spends n = record { spends = λ vm s a e. ground (arith, consume_lem vm.gas_meter n s.gas) }

step-Spends : Spends sbf_discipline base_cost step
unfolding step
step-Spends =
    Spends-bind-Returns base_cost IsEncodable fetch (λ inst. charge base_cost >> dispatch inst)
      fetch-Keeps fetch-Returns
      (λ inst v.
        Spends-bind_first base_cost (charge base_cost) (λ _. dispatch inst)
          (charge-Spends base_cost) (charge-Keeps base_cost) (λ _. dispatch-Keeps inst v))

decode-IsEncodable :
    (bytes : List ℕ) (i : SbfInstruction) → All IsByte bytes → decode bytes ≡ some i → IsEncodable i
unfolding decode
decode-IsEncodable (b0 ∷ b1 ∷ b2 ∷ b3 ∷ b4 ∷ b5 ∷ b6 ∷ b7 ∷ rest) i h e = ground arith
decode-IsEncodable _ i h e = cc

decode_all-IsEncodable :
    (rounds : ℕ) (code : List ℕ) → All IsByte code → All IsEncodable (decode_all rounds code)
unfolding decode_all
decode_all-IsEncodable zero code h = tt
decode_all-IsEncodable (suc rounds) code h = elim (Option-cases (decode code)) [
  | inl stuck ↦ rw (decode_all, stuck) tt
  | inr (i, e) ↦
      rw (decode_all, e)
        (
          decode-IsEncodable code i h e,
          decode_all-IsEncodable rounds (drop 8 code) (All-drop IsByte 8 code h),
        )
]

or_minimal-IsEncodable :
    (program : List SbfInstruction) → All IsEncodable program → All IsEncodable (or_minimal program)
unfolding or_minimal minimal_program
or_minimal-IsEncodable [] h = ground arith
or_minimal-IsEncodable (i ∷ program) h = h

-- A file of bytes holds a program whose fields have their widths.
pub parse_elf-IsEncodable :
    (bytecode : List ℕ) (program : List SbfInstruction)
    → All IsByte bytecode
    → parse_elf bytecode ≡ some program
    → All IsEncodable program
unfolding parse_elf
parse_elf-IsEncodable bytecode program h e =
    let code = drop (min 64 (length bytecode)) bytecode in
    let found = or_minimal-IsEncodable (decode_all (length code / 8) code) (
      decode_all-IsEncodable (length code / 8) code
        (All-drop IsByte (min 64 (length bytecode)) bytecode h)) in
    ground (arith, found)

pub prepared-IsSound :
    (program : List SbfInstruction) (context : ExecutionContext)
    → All IsEncodable program
    → context.gas_limit < u64_mod - 1
    → IsSound (prepared (loaded program context))
unfolding prepared loaded zeroed
prepared-IsSound program context v h = record {
  gas = record { within = omega arith; fits = h };
  registers_count = refl;
  registers_fit = ground arith;
  heap_length = length-replicate {A = ℕ} heap_size 0;
  heap_fits = All-replicate IsByte heap_size 0 (omega arith);
  shallow = omega arith;
  code = v;
}

reported_gas :
    (limit : ℕ) (vm : SbfVm) (r : Ended (Unit {0}))
    → vm.gas_meter.used ≤ limit
    → GasWithin limit (reported (vm, r))
unfolding final_result success_result failure_result
reported_gas limit vm (ok a) h = h
reported_gas limit vm (fail x) h = h
reported_gas limit vm crash h = tt

started_halts :
    (program : List SbfInstruction) (context : ExecutionContext)
    → All IsEncodable program
    → context.gas_limit < u64_mod - 1
    → (o : Option VmResult) × (execute (enough_rounds context) (loaded program context) ≡ some o)
      × GasWithin context.gas_limit o
unfolding execute run loaded
started_halts program context v h =
    let vm = prepared (loaded program context) in
    let fresh : vm.gas_meter ≡ new_meter context.gas_limit = refl in
    let (r, e, sound, later) =
      run_loop_halts sbf_discipline base_cost (λ m. leb (length m.instructions) m.pc) step
        step-Keeps step-Spends (enough_rounds context) vm (prepared-IsSound program context v h)
        (omega arith) in
    let within : r.0.gas_meter.used ≤ context.gas_limit =
      omega (arith, later.same_limit, sound.gas.within) in
    (reported r, rw (execute, e) refl, reported_gas context.gas_limit r.0 r.1 within)

with_program-inl :
    (context : ExecutionContext) (vm : SbfVm) (parsed : Option (List SbfInstruction))
    → with_program context parsed ≡ inl vm
    → (program : List SbfInstruction) × (parsed ≡ some program) × (loaded program context ≡ vm)
with_program-inl context vm none e = cc
with_program-inl context vm (some program) e = (program, refl, cc)

-- A machine that is made from a file of bytes, under a gas limit below 2 ^ 64 - 1, ends within the
-- rounds that the limit allows: with a panic, or with a result that has used no more gas than the
-- limit.
pub sbf_execute_halts :
    (bytecode : List ℕ) (context : ExecutionContext) (vm : SbfVm)
    → All IsByte bytecode
    → context.gas_limit < u64_mod - 1
    → new_sbf bytecode context ≡ inl vm
    → (o : Option VmResult) × (execute (enough_rounds context) vm ≡ some o)
      × GasWithin context.gas_limit o
unfolding new_sbf
sbf_execute_halts bytecode context vm h g e =
    let (program, parsed, same) = with_program-inl context vm (parse_elf bytecode) e in
    subst
      (λ m.
        (o : Option VmResult) × (execute (enough_rounds context) m ≡ some o)
        × GasWithin context.gas_limit o)
      same (started_halts program context (parse_elf-IsEncodable bytecode program h parsed) g)
