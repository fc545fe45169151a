-- ===== src/Vm/Avm/Constants.antt =====
-- crates/frychain-vm/src/avm.rs: what `intcblock` and `intc` do with the constants and the operands
-- in the bytecode.
use fry_chain.Vm.Action.{ok, run_loop}
use fry_chain.Vm.Action.{crash}
use fry_chain.Vm.Avm.Ops.{bytec}
use fry_chain.Vm.Action.{after_step}
use fry_chain.Vm.Gas.{GasMeter}
use fry_chain.Prelude.{
  ap, ◌∙◌, true, if◌then◌else◌, ◌⊎◌, inl, inr, get_elem?, leb, ℕ, zero, suc, ◌+◌, ◌<◌, bit_or, ◌≡◌,
  List, [], ◌∷◌, ◌++◌, length, drop, bit_or-bitwise, refl, arith, append-nil, append_assoc, ◌≤◌,
  false, none, some, ltb, ◌∙◌, true,
}
use fry_chain.Vm.Avm.{read_operand, new_avm, read_varuint, varuint_from, Avm, set_pc, charge}
use fry_chain.Vm.Avm.Ops.{int_constants_loop, intcblock, intc}
use fry_chain.Words.{u64_mod, wrapping_add}
use fry_chain.Vm.Avm.Run.{execute, run, step, instructions, fetch}
use fry_chain.Vm.Gas.{consume, base_cost}
use fry_chain.Vm.Types.{ExecutionContext}

-- Bytes that are a whole variable-length integer each.
abbrev pub AllSmall : List ℕ → Type 0
AllSmall [] = Unit
AllSmall (b ∷ bs) = (b < 128) × AllSmall bs

bit_or_zero : (x : ℕ) → bit_or 0 x ≡ x
bit_or_zero x = bit_or-bitwise 0 x

read_varuint_small :
    (vm : Avm) (b : ℕ) (rest : List ℕ)
    → drop vm.pc vm.bytecode ≡ b ∷ rest
    → b < 128
    → read_varuint vm ≡ (vm, ok (b, 1))
unfolding read_varuint varuint_from
read_varuint_small vm b rest at h = rw (at, bit_or_zero) ground arith

drop_next :
    {A : Type 0} (n : ℕ) (xs : List A) (x : A) (rest : List A)
    → drop n xs ≡ x ∷ rest
    → drop (suc n) xs ≡ rest
drop_next zero (y ∷ ys) x rest h = cc
drop_next zero [] x rest h = cc
drop_next (suc n) [] x rest h = cc
drop_next (suc n) (y ∷ ys) x rest h = drop_next n ys x rest h

int_constants_loop_small :
    (cs rest : List ℕ) (vm : Avm)
    → drop vm.pc vm.bytecode ≡ cs ++ rest
    → AllSmall cs
    → vm.pc + length cs < u64_mod
    → int_constants_loop (length cs) vm
      ≡ (record vm { int_constants = vm.int_constants ++ cs; pc = vm.pc + length cs }, ok tt)
unfolding int_constants_loop set_pc
int_constants_loop_small [] rest vm at small fits = rw (stays, append-nil vm.int_constants) refl
  where
    stays : vm.pc + 0 ≡ vm.pc
    stays = omega arith
int_constants_loop_small (c ∷ cs) rest vm at small fits =
    let rec =
      int_constants_loop_small cs rest
        (record vm { pc = suc vm.pc; int_constants = vm.int_constants ++ c ∷ [] })
        (drop_next vm.pc vm.bytecode c (cs ++ rest) at) small.1 (omega (arith, fits)) in
    rw
      (
        read_varuint_small vm c (cs ++ rest) at small.0,
        next,
        rec,
        append_assoc vm.int_constants (c ∷ []) cs,
        sum,
      )
      refl
  where
    next : wrapping_add u64_mod vm.pc 1 ≡ suc vm.pc
    next = omega (arith, fits)

    sum : suc vm.pc + length cs ≡ vm.pc + suc (length cs)
    sum = omega arith

-- For a block of fewer than 128 constants of one byte each, in a program whose end a `u64` can
-- count, the constants that `intcblock` appends are the count itself and all of the block's
-- constants but the last.
pub intcblock_shifts :
    (vm : Avm) (cs : List ℕ) (c : ℕ) (rest : List ℕ)
    → drop vm.pc vm.bytecode ≡ suc (length cs) ∷ cs ++ c ∷ rest
    → suc (length cs) < 128
    → AllSmall cs
    → vm.pc + length cs + 2 < u64_mod
    → intcblock vm ≡ (
      record vm {
        int_constants = vm.int_constants ++ suc (length cs) ∷ cs;
        pc = vm.pc + length cs + 2;
      },
      ok tt,
    )
unfolding intcblock set_pc
intcblock_shifts vm cs c rest at few small fits =
    rw (read_varuint_small vm (suc (length cs)) (cs ++ c ∷ rest) at few, loop, last) refl
  where
    loop : int_constants_loop (suc (length cs)) vm ≡ (
      record vm {
        int_constants = vm.int_constants ++ suc (length cs) ∷ cs;
        pc = vm.pc + suc (length cs);
      },
      ok tt,
    )
    loop =
        int_constants_loop_small (suc (length cs) ∷ cs) (c ∷ rest) vm at (few, small)
          (omega (arith, fits))

    last : wrapping_add u64_mod (vm.pc + suc (length cs)) 1 ≡ vm.pc + length cs + 2
    last = omega (arith, fits)

last_element :
    {A : Type 0} (n : ℕ) (xs : List A) (x : A)
    → drop n xs ≡ x ∷ []
    → (get_elem? xs n ≡ some x) × (get_elem? xs (suc n) ≡ none) × (n < length xs)
last_element zero [] x h = cc
last_element zero (y ∷ ys) x h =
    let same_first : y ≡ x = cc in
    let no_more : ys ≡ [] = cc in rw (same_first, no_more) (refl, refl, omega arith)
last_element (suc n) [] x h = cc
last_element (suc n) (y ∷ ys) x h =
    let (found, missing, below) = last_element n ys x h in (found, missing, omega (arith, below))

consume_paid :
    (m : GasMeter)
    → m.used + base_cost ≤ m.limit
    → m.limit < u64_mod
    → (consume m base_cost).1 ≡ true
unfolding consume
consume_paid m funded fits = ground (arith, funded, fits)

module _ (sha2 sha3 : List ℕ → List ℕ) where
  -- The interpreter gets from one state to another by a number of successful steps.
  pub data Steps : ℕ → Avm → Avm → Type 0 where
    here : {vm : Avm} → Steps 0 vm vm
    goes :
        {n : ℕ} {vm vm' end : Avm}
        → leb (length vm.bytecode) vm.pc ≡ false
        → step sha2 sha3 vm ≡ (vm', ok true)
        → Steps n vm' end
        → Steps (suc n) vm end

  run-Steps :
      {n : ℕ} {vm end : Avm} (rounds : ℕ)
      → Steps n vm end
      → run sha2 sha3 (n + rounds) vm ≡ run sha2 sha3 rounds end
  unfolding run run_loop
  run-Steps rounds (here {vm}) =
      let same_rounds : 0 + rounds ≡ rounds = omega arith in
      ap (λ k. run sha2 sha3 k vm) same_rounds
  run-Steps rounds (goes {n} {vm} {vm'} {end} inside moved rest) =
      let same_rounds : suc n + rounds ≡ suc (n + rounds) = omega arith in
      ap (λ k. run sha2 sha3 k vm) same_rounds
      ∙ ap
          (λ c.
            if c
            then some (vm, ok tt)
            else after_step (run sha2 sha3 (n + rounds)) (step sha2 sha3 vm).0
                (step sha2 sha3 vm).1)
          inside
      ∙ ap (λ r. after_step (run sha2 sha3 (n + rounds)) r.0 r.1) moved
      ∙ run-Steps rounds rest

  -- The interpreter is at the last byte of the program, which is the opcode of intc or of bytec, and has
  -- the gas for one more instruction.
  pub record IsTruncated (vm : Avm) : Type 0 where
    pub last : (drop vm.pc vm.bytecode ≡ 0x22 ∷ []) ⊎ (drop vm.pc vm.bytecode ≡ 0x23 ∷ [])
    pub funded : vm.gas_meter.used + base_cost ≤ vm.gas_meter.limit
    pub fits : vm.gas_meter.limit < u64_mod

  step_truncated : (vm : Avm) → IsTruncated vm → (step sha2 sha3 vm).1 ≡ crash
  unfolding step instructions fetch charge intc bytec read_operand set_pc
  step_truncated vm t =
      let paid = consume_paid vm.gas_meter t.funded t.fits in
      let next : vm.pc + 1 ≡ suc vm.pc = omega arith in
      elim t.last [
        | inl at ↦
            let (opcode, missing, below) = last_element vm.pc vm.bytecode 0x22 at in
            rw (opcode, paid, next, missing) refl
        | inr at ↦
            let (opcode, missing, below) = last_element vm.pc vm.bytecode 0x23 at in
            rw (opcode, paid, next, missing) refl
      ]

  inside_code : (vm : Avm) → IsTruncated vm → leb (length vm.bytecode) vm.pc ≡ false
  inside_code vm t = elim t.last [
    | inl at ↦
        let (opcode, missing, below) = last_element vm.pc vm.bytecode 0x22 at in
        ground (arith, below)
    | inr at ↦
        let (opcode, missing, below) = last_element vm.pc vm.bytecode 0x23 at in
        ground (arith, below)
  ]

  run_truncated :
      (rounds : ℕ) (vm : Avm)
      → IsTruncated vm
      → run sha2 sha3 (suc rounds) vm ≡ some ((step sha2 sha3 vm).0, crash)
  unfolding run run_loop
  run_truncated rounds vm t =
      ap
        (λ c.
          if c
          then some (vm, ok tt)
          else after_step (run sha2 sha3 rounds) (step sha2 sha3 vm).0 (step sha2 sha3 vm).1)
        (inside_code vm t)
      ∙ ap (λ r. after_step (run sha2 sha3 rounds) (step sha2 sha3 vm).0 r) (step_truncated vm t)

  -- A program of a supported version that gets, by any number of steps, to an opcode of intc or bytec
  -- that is its last byte, with the gas for one more instruction under a limit of 64 bits, panics: the
  -- operand is read without a check.
  pub execute-truncated_panics :
      (rounds n version : ℕ) (code : List ℕ) (context : ExecutionContext) (end : Avm)
      → version ≤ 10
      → Steps n (record (new_avm (version ∷ code) context) { pc = 1 }) end
      → IsTruncated end
      → execute sha2 sha3 (n + suc rounds) (version ∷ code) context ≡ some none
  unfolding execute
  execute-truncated_panics rounds n version code context end supported steps truncated =
      let known : ltb 10 version ≡ false = ground (arith, supported) in
      let start : Avm = record (new_avm (version ∷ code) context) { pc = 1 } in
      let ends : run sha2 sha3 (n + suc rounds) start ≡ some ((step sha2 sha3 end).0, crash) =
        run-Steps (suc rounds) steps ∙ run_truncated rounds end truncated in
      rw (known, ends) refl
