-- ===== src/Vm/Avm/Instructions.antt =====
-- Every instruction keeps the interpreter sound.
-- The code is crates/frychain-vm/src/avm.rs.
use fry_chain.Vm.Action.{◌>>=◌, ◌>>◌}
use fry_chain.Vm.Action.Keeps.{pure-Keeps}
use fry_chain.Vm.Avm.Keeps.{keeping, Keeps, IsSound, Later}
use fry_chain.Vm.Avm.Ops.{
  add, pop_two, advance, add_int_constant, add_byte_constant, slice, int_constants_loop,
  byte_constants_loop, intcblock, bytecblock, push_int_constant, push_byte_constant, intc, bytec,
  sub, div, mul, modulo, equals, logic_and, logic_or, logic_not, discard, err, assert,
  app_global_get, len, concat, dup, swap, jump, bnz, bz, branch, hash_with, emit, log,
  app_global_put, dup_top, store, swap_top,
}
use fry_chain.Prelude.{ℕ, zero, suc, ◌≡◌, refl, List, [], ◌∷◌, arith}
use fry_chain.Vm.Avm.{read_varuint, read_operand, StackValue, Avm, Action}
use fry_chain.Vm.Avm.Run.{fetch}

advance-Keeps : (n : ℕ) → Keeps (advance n)
advance-Keeps n = search (keeping)

pop_two-Keeps : Keeps pop_two
unfolding pop_two
pop_two-Keeps = search (keeping)

add_int_constant-Keeps : (n : ℕ) → Keeps (add_int_constant n)
add_int_constant-Keeps n = record { keeps = λ vm s. ground arith }

add_byte_constant-Keeps : (b : List ℕ) → Keeps (add_byte_constant b)
add_byte_constant-Keeps b = record { keeps = λ vm s. ground arith }

slice-Keeps : (n : ℕ) → Keeps (slice n)
slice-Keeps n = record { keeps = λ vm s. ground arith }

-- The loops of the two constant blocks: one round, then the rest of the loop.
int_constant-Keeps :
    (rest : Action (Unit {0}))
    → Keeps rest
    → Keeps (do (val, br) ← read_varuint; add_int_constant val; advance br; rest)
int_constant-Keeps rest k = search (keeping, add_int_constant-Keeps, advance-Keeps)

byte_constant-Keeps :
    (rest : Action (Unit {0}))
    → Keeps rest
    → Keeps (do
      (len, br) ← read_varuint
      advance br
      bytes ← slice len
      add_byte_constant bytes
      advance len
      rest)
byte_constant-Keeps rest k =
    search (keeping, add_byte_constant-Keeps, slice-Keeps, advance-Keeps) depth 9

int_constants_loop-Keeps : (count : ℕ) → Keeps (int_constants_loop count)
unfolding int_constants_loop
int_constants_loop-Keeps zero = pure-Keeps {0} tt
int_constants_loop-Keeps (suc count) =
    int_constant-Keeps (int_constants_loop count) (int_constants_loop-Keeps count)

byte_constants_loop-Keeps : (count : ℕ) → Keeps (byte_constants_loop count)
unfolding byte_constants_loop
byte_constants_loop-Keeps zero = pure-Keeps {0} tt
byte_constants_loop-Keeps (suc count) =
    byte_constant-Keeps (byte_constants_loop count) (byte_constants_loop-Keeps count)

pub intcblock-Keeps : Keeps intcblock
unfolding intcblock
intcblock-Keeps = search (keeping, int_constants_loop-Keeps, advance-Keeps)

pub bytecblock-Keeps : Keeps bytecblock
unfolding bytecblock
bytecblock-Keeps = search (keeping, byte_constants_loop-Keeps, advance-Keeps)

pub push_int_constant-Keeps : (i : ℕ) → Keeps (push_int_constant i)
unfolding push_int_constant
push_int_constant-Keeps i = search (keeping)

pub push_byte_constant-Keeps : (i : ℕ) → Keeps (push_byte_constant i)
unfolding push_byte_constant
push_byte_constant-Keeps i = search (keeping)

read_operand-Keeps : Keeps read_operand
unfolding read_operand
read_operand-Keeps = search (keeping)

pub intc-Keeps : Keeps intc
unfolding intc
intc-Keeps = search (keeping, read_operand-Keeps, push_int_constant-Keeps)

pub bytec-Keeps : Keeps bytec
unfolding bytec
bytec-Keeps = search (keeping, read_operand-Keeps, push_byte_constant-Keeps)

pub add-Keeps : Keeps add
unfolding add
add-Keeps = search (keeping, pop_two-Keeps)

pub sub-Keeps : Keeps sub
unfolding sub
sub-Keeps = search (keeping, pop_two-Keeps)

pub div-Keeps : Keeps div
unfolding div
div-Keeps = search (keeping, pop_two-Keeps)

pub mul-Keeps : Keeps mul
unfolding mul
mul-Keeps = search (keeping, pop_two-Keeps)

pub modulo-Keeps : Keeps modulo
unfolding modulo
modulo-Keeps = search (keeping, pop_two-Keeps)

pub equals-Keeps : Keeps equals
unfolding equals
equals-Keeps = search (keeping, pop_two-Keeps)

pub logic_and-Keeps : Keeps logic_and
unfolding logic_and
logic_and-Keeps = search (keeping)

pub logic_or-Keeps : Keeps logic_or
unfolding logic_or
logic_or-Keeps = search (keeping)

pub logic_not-Keeps : Keeps logic_not
unfolding logic_not
logic_not-Keeps = search (keeping)

pub discard-Keeps : Keeps discard
unfolding discard
discard-Keeps = search (keeping)

pub err-Keeps : Keeps err
unfolding err
err-Keeps = search (keeping)

pub assert-Keeps : Keeps assert
unfolding assert
assert-Keeps = search (keeping)

pub app_global_get-Keeps : Keeps app_global_get
unfolding app_global_get
app_global_get-Keeps = search (keeping)

pub len-Keeps : Keeps len
unfolding len
len-Keeps = search (keeping)

pub concat-Keeps : Keeps concat
unfolding concat
concat-Keeps = search (keeping)

dup_top-Keeps : (l : List StackValue) → Keeps (dup_top l)
dup_top-Keeps [] = search (keeping)
dup_top-Keeps (v ∷ rest) = search (keeping)

pub dup-Keeps : Keeps dup
unfolding dup
dup-Keeps = search (keeping, dup_top-Keeps)

pub swap-Keeps : Keeps swap
unfolding swap
swap-Keeps = record { keeps = λ vm s. swap_sound vm s vm.stack refl }
  where
    swap_sound :
        (vm : Avm)
        → IsSound vm
        → (l : List StackValue) → vm.stack ≡ l
        → IsSound (swap_top l vm).0 × Later vm (swap_top l vm).0
    swap_sound vm s [] e = ground arith
    swap_sound vm s (a ∷ []) e = ground arith
    swap_sound vm s (a ∷ b ∷ rest) e = ground arith

jump-Keeps : (o : ℕ) → Keeps (jump o)
unfolding jump
jump-Keeps o = search (keeping)

pub bnz-Keeps : Keeps bnz
unfolding bnz
bnz-Keeps = search (keeping, jump-Keeps)

pub bz-Keeps : Keeps bz
unfolding bz
bz-Keeps = search (keeping, jump-Keeps)

pub branch-Keeps : Keeps branch
unfolding branch
branch-Keeps = search (keeping, jump-Keeps)

pub hash_with-Keeps : (d : List ℕ → List ℕ) → Keeps (hash_with d)
unfolding hash_with
hash_with-Keeps d = search (keeping)

store-Keeps : (key : List ℕ) (val : StackValue) → Keeps (store key val)
store-Keeps key val = record { keeps = λ vm s. ground arith }

emit-Keeps : (bytes : List ℕ) → Keeps (emit bytes)
emit-Keeps bytes = record { keeps = λ vm s. ground arith }

pub log-Keeps : Keeps log
unfolding log
log-Keeps = search (keeping, emit-Keeps)

pub app_global_put-Keeps : Keeps app_global_put
unfolding app_global_put
app_global_put-Keeps = search (keeping, store-Keeps)

pub ruleset instruction_rules = (
  intcblock-Keeps, bytecblock-Keeps, intc-Keeps, bytec-Keeps, push_int_constant-Keeps,
  push_byte_constant-Keeps, add-Keeps, sub-Keeps, div-Keeps, mul-Keeps, modulo-Keeps,
  logic_and-Keeps, logic_or-Keeps, logic_not-Keeps, equals-Keeps, dup-Keeps, discard-Keeps,
  swap-Keeps, err-Keeps, assert-Keeps, bnz-Keeps, bz-Keeps, branch-Keeps, hash_with-Keeps,
  app_global_get-Keeps, app_global_put-Keeps, log-Keeps, len-Keeps, concat-Keeps,
)

pub fetch-Keeps : Keeps fetch
unfolding fetch
fetch-Keeps = search (keeping)
