-- ===== src/Vm/Sbf/Instructions.antt =====
-- Every instruction of the register machine keeps it sound.
-- The code is crates/frychain-vm/src/sbf.rs.
use native.Mathlib.Nat.{div-le_self, mod-le}
use fry_chain.Words.{u64_mod, wrapping_add, wrapping_sub, wrapping_mul}
use fry_chain.Words.Bitwise.{bit_and_bound, bit_or_bound, bit_xor_bound}
use fry_chain.Vm.Types.{execution_error}
use fry_chain.Vm.Action.{◌>>=◌, raise}
use fry_chain.Vm.Action.Keeps.{
  keeping as actions, bind-Returns-Keeps, bind-Keeps, if-Keeps, raise-Keeps,
}
use fry_chain.Vm.Sbf.{SbfInstruction, Action, sign_extend, register, set_register}
use fry_chain.Vm.Sbf.Decode.{IsEncodable}
use fry_chain.Vm.Sbf.Ops.{
  immediate, alu_immediate, div_immediate, mod_immediate, mov_immediate, shift_left, shift_right,
  negate, alu_register, div_register, mov_register, displaced, load, stored_value, store, jump,
  branch_immediate, branch_register,
}
use fry_chain.Vm.Sbf.Keeps.{
  IsWord, Keeps, Returns, sbf_discipline, charge-Keeps, set_pc-Keeps, register-Keeps,
  register-Returns, set_register-Keeps,
}
use fry_chain.Prelude.{
  ℕ, ◌/◌, ◌%◌, ◌^◌, Bool, true, false, bit_or, bit_and, bit_xor, arith, ◌==◌, if◌then◌else◌,
}

-- An operation of the ALU on two words gives a word.
abbrev pub IsWordOp : (ℕ → ℕ → ℕ) → Type 0
IsWordOp f = (x y : ℕ) → IsWord x → IsWord y → IsWord (f x y)

pub immediate-IsWord : (inst : SbfInstruction) → IsEncodable inst → IsWord (immediate inst)
unfolding immediate sign_extend
immediate-IsWord inst v = ground (arith, v.imm_fits)

pub displaced-IsWord : (base offset : ℕ) → IsWord (displaced base offset)
unfolding displaced
displaced-IsWord base offset = omega arith

pub add-IsWordOp : IsWordOp (wrapping_add u64_mod)
add-IsWordOp x y hx hy = omega arith

pub sub-IsWordOp : IsWordOp (wrapping_sub u64_mod)
sub-IsWordOp x y hx hy = omega arith

pub mul-IsWordOp : IsWordOp (wrapping_mul u64_mod)
mul-IsWordOp x y hx hy = omega arith

pub div-IsWordOp : IsWordOp ◌/◌
div-IsWordOp x y hx hy = omega (arith, div-le_self x y)

pub mod-IsWordOp : IsWordOp ◌%◌
mod-IsWordOp x y hx hy = omega (arith, mod-le x y)

pub and-IsWordOp : IsWordOp bit_and
and-IsWordOp = bit_and_bound 64

pub or-IsWordOp : IsWordOp bit_or
or-IsWordOp = bit_or_bound 64

pub xor-IsWordOp : IsWordOp bit_xor
xor-IsWordOp = bit_xor_bound 64

pub shift_left-IsWordOp : IsWordOp shift_left
unfolding shift_left
shift_left-IsWordOp x y hx hy = omega arith

pub shift_right-IsWordOp : IsWordOp shift_right
unfolding shift_right
shift_right-IsWordOp x y hx hy = omega (arith, div-le_self x (2 ^ (y % 64)))

pub negate-IsWordOp : IsWordOp negate
unfolding negate
negate-IsWordOp x y hx hy = omega arith

-- Read the destination, then write a word to it.
module _ (inst : SbfInstruction) where
  with_register-Keeps :
      (i : ℕ) (f : ℕ → Action (Unit {0}))
      → ((x : ℕ) → IsWord x → Keeps (f x))
      → Keeps (register i >>= f)
  with_register-Keeps i f k =
      bind-Returns-Keeps sbf_discipline IsWord (register i) f (register-Keeps i)
        (register-Returns i) k

  module _ (v : IsEncodable inst) where
    pub alu_immediate-Keeps : (f : ℕ → ℕ → ℕ) → IsWordOp f → Keeps (alu_immediate f inst)
    unfolding alu_immediate
    alu_immediate-Keeps f h =
        with_register-Keeps inst.dst (λ x. set_register inst.dst (f x (immediate inst)))
          (λ x hx.
            set_register-Keeps inst.dst (f x (immediate inst))
              (h x (immediate inst) hx (immediate-IsWord inst v)))

    pub div_immediate-Keeps : Keeps (div_immediate inst)
    unfolding div_immediate
    div_immediate-Keeps =
        if-Keeps (immediate inst == 0) (raise (execution_error "Division by zero"))
          (alu_immediate ◌/◌ inst) (raise-Keeps (execution_error "Division by zero"))
          (alu_immediate-Keeps ◌/◌ div-IsWordOp)

    pub mod_immediate-Keeps : Keeps (mod_immediate inst)
    unfolding mod_immediate
    mod_immediate-Keeps =
        if-Keeps (immediate inst == 0) (raise (execution_error "Modulo by zero"))
          (alu_immediate ◌%◌ inst) (raise-Keeps (execution_error "Modulo by zero"))
          (alu_immediate-Keeps ◌%◌ mod-IsWordOp)

    pub mov_immediate-Keeps : Keeps (mov_immediate inst)
    unfolding mov_immediate
    mov_immediate-Keeps = set_register-Keeps inst.dst (immediate inst) (immediate-IsWord inst v)

  pub alu_register-Keeps : (f : ℕ → ℕ → ℕ) → IsWordOp f → Keeps (alu_register f inst)
  unfolding alu_register
  alu_register-Keeps f h =
      with_register-Keeps inst.dst (λ x. register inst.src >>= λ y. set_register inst.dst (f x y))
        (λ x hx.
          with_register-Keeps inst.src (λ y. set_register inst.dst (f x y))
            (λ y hy. set_register-Keeps inst.dst (f x y) (h x y hx hy)))

  pub div_register-Keeps : Keeps (div_register inst)
  unfolding div_register
  div_register-Keeps =
      bind-Keeps (register inst.src)
        (λ y. if y == 0 then raise (execution_error "Division by zero") else alu_register ◌/◌ inst)
        (register-Keeps inst.src)
        (λ y.
          if-Keeps (y == 0) (raise (execution_error "Division by zero")) (alu_register ◌/◌ inst)
            (raise-Keeps (execution_error "Division by zero"))
            (alu_register-Keeps ◌/◌ div-IsWordOp))

  pub mov_register-Keeps : Keeps (mov_register inst)
  unfolding mov_register
  mov_register-Keeps =
      with_register-Keeps inst.src (λ y. set_register inst.dst y)
        (λ y hy. set_register-Keeps inst.dst y hy)

  pub load-Keeps :
      (cost : ℕ) (read : ℕ → Action ℕ)
      → ((addr : ℕ) → Keeps (read addr))
      → ((addr : ℕ) → Returns IsWord (read addr))
      → Keeps (load cost read inst)
  unfolding load
  load-Keeps cost read k r =
      let read_then : (addr : ℕ) → Keeps (read addr >>= set_register inst.dst) = λ addr.
        bind-Returns-Keeps sbf_discipline IsWord (read addr) (set_register inst.dst) (k addr)
          (r addr) (set_register-Keeps inst.dst) in
      search (actions, register-Keeps, charge-Keeps, read_then)

  stored_value-Keeps : (b : Bool) → Keeps (stored_value b inst)
  unfolding stored_value
  stored_value-Keeps true = search (actions)
  stored_value-Keeps false = search (actions, register-Keeps)

  pub store-Keeps :
      (cost width : ℕ) (write : ℕ → ℕ → Action (Unit {0})) (b : Bool)
      → ((addr val : ℕ) → IsWord addr → Keeps (write addr (val % 256 ^ width)))
      → Keeps (store cost width write b inst)
  unfolding store
  store-Keeps cost width write b k =
      let write_there : (base val : ℕ)
          → Keeps (write (displaced base inst.offset) (val % 256 ^ width)) =
        λ base val. k (displaced base inst.offset) val (displaced-IsWord base inst.offset) in
      search (actions, register-Keeps, charge-Keeps, stored_value-Keeps, write_there)

  pub jump-Keeps : Keeps (jump inst)
  unfolding jump
  jump-Keeps = search (actions, set_pc-Keeps)

  pub branch_immediate-Keeps : (test : ℕ → ℕ → Bool) → Keeps (branch_immediate test inst)
  unfolding branch_immediate
  branch_immediate-Keeps test = search (actions, register-Keeps, jump-Keeps)

  pub branch_register-Keeps : (test : ℕ → ℕ → Bool) → Keeps (branch_register test inst)
  unfolding branch_register
  branch_register-Keeps test = search (actions, register-Keeps, jump-Keeps)

pub ruleset word_ops = (
  add-IsWordOp, sub-IsWordOp, mul-IsWordOp, and-IsWordOp, or-IsWordOp, xor-IsWordOp,
  shift_left-IsWordOp, shift_right-IsWordOp, negate-IsWordOp,
)
