-- ===== src/Vm/Avm/Halts.antt =====
-- The main loop always ends: each step that goes on has used gas.
-- The code is crates/frychain-vm/src/avm.rs.
use fry_chain.Vm.Action.Loop.{GasWithin, enough_rounds}
use fry_chain.Vm.Action.Loop.{Spends, Stops, run_loop_halts, Spends-bind_first, Spends-bind_then}
use fry_chain.Vm.Avm.Keeps.{avm_discipline}
use fry_chain.Vm.Action.{Ended, ok, fail, crash}
use fry_chain.Words.{u64_mod}
use fry_chain.Vm.Gas.{base_cost}
use fry_chain.Vm.Gas.Meter.{consume_lem}
use fry_chain.Vm.Types.{VmResult, ExecutionContext, failure_result, success_result, execution_error}
use fry_chain.Vm.Avm.{Avm, new_avm, charge}
use fry_chain.Vm.Avm.Keeps.{IsSound, Later, charge-Keeps}
use fry_chain.Vm.Avm.Sound.{dispatch-Keeps, step-Keeps}
use fry_chain.Vm.Avm.Run.{step, run, execute, reported, final_result}
use fry_chain.Prelude.{
  ℕ, ◌≤◌, ◌<◌, ◌≡◌, refl, some, List, arith, ◌-◌, inl, inr, Option, [], ◌∷◌, leb, Bool-cases,
  length, ltb,
}
use fry_chain.Vm.Avm.Instructions.{fetch-Keeps}

charge-Spends : (n : ℕ) → Spends avm_discipline n (charge n)
unfolding charge
charge-Spends n = record { spends = λ vm s a e. ground (arith, consume_lem vm.gas_meter n s.gas) }

module _ (sha2 sha3 : List ℕ → List ℕ) where
  step-Spends : Spends avm_discipline base_cost (step sha2 sha3)
  unfolding step
  step-Spends = search (
    Spends-bind_first, Spends-bind_then, fetch-Keeps, charge-Spends, charge-Keeps, dispatch-Keeps,
  )

  reported_gas :
      (limit : ℕ) (vm : Avm) (r : Ended (Unit {0}))
      → vm.gas_meter.used ≤ limit
      → GasWithin limit (reported (vm, r))
  unfolding final_result success_result failure_result
  reported_gas limit vm (ok a) h = h
  reported_gas limit vm (fail x) h = h
  reported_gas limit vm crash h = tt

  gas_within :
      (bytecode : List ℕ) (context : ExecutionContext) (vm : Avm)
      → IsSound vm
      → Later (record (new_avm bytecode context) { pc = 1 }) vm
      → vm.gas_meter.used ≤ context.gas_limit
  unfolding new_avm
  gas_within bytecode context vm s l = omega (arith, l.same_limit, s.gas.within)

  started_halts :
      (bytecode : List ℕ) (context : ExecutionContext)
      → context.gas_limit < u64_mod - 1
      → Stops avm_discipline base_cost
          (record (new_avm bytecode context) { pc = 1 })
          (run sha2 sha3 (enough_rounds context) (record (new_avm bytecode context) { pc = 1 }))
  unfolding new_avm run
  started_halts bytecode context h =
      run_loop_halts avm_discipline base_cost (λ vm. leb (length vm.bytecode) vm.pc)
        (step sha2 sha3) (step-Keeps sha2 sha3) step-Spends (enough_rounds context)
        (record (new_avm bytecode context) { pc = 1 })
        (record { gas = record { within = omega arith; fits = h }; shallow = omega arith })
        (omega arith)

  -- Every execution under a gas limit below 2 ^ 64 - 1 ends within the rounds that the limit allows:
  -- with a panic, or with a result that has used no more gas than the limit.
  pub execute_halts :
      (bytecode : List ℕ) (context : ExecutionContext)
      → context.gas_limit < u64_mod - 1
      → (o : Option VmResult) × (execute sha2 sha3 (enough_rounds context) bytecode context
          ≡ some o)
        × GasWithin context.gas_limit o
  unfolding execute failure_result
  execute_halts [] context h =
      (some (failure_result 0 (execution_error "Empty bytecode")), refl, omega arith)
  execute_halts (version ∷ code) context h = elim (Bool-cases (ltb 10 version)) [
    | inl unsupported ↦
        rw unsupported
          (some (failure_result 0 (execution_error "Unsupported TEAL version")), refl, omega arith)
    | inr supported ↦
        let (r, e, sound, later) = started_halts (version ∷ code) context h in
        rw (supported, e)
          (
            reported r,
            refl,
            reported_gas context.gas_limit r.0 r.1
                (gas_within (version ∷ code) context r.0 sound later),
          )
  ]
