-- ===== src/Vm/Sbf/Access.antt =====
-- What a program sees of its memory.
-- The code is crates/frychain-vm/src/sbf.rs.
use fry_chain.Words.{u64_mod}
use fry_chain.Words.Bytes.{le_bytes, from_le, length-le_bytes, from_le-le_bytes}
use fry_chain.Vm.Action.{ok, crash}
use fry_chain.Vm.Sbf.{SbfVm}
use fry_chain.Vm.Sbf.Keeps.{IsWord}
use fry_chain.Vm.Sbf.Heap.{checked_range_inside, length-overwrite}
use fry_chain.Vm.Sbf.Memory.{read_memory, write_memory, checked_range, overwrite, read_memory_slice}
use fry_chain.Prelude.{
  ℕ, ◌+◌, ◌≤◌, ◌<◌, ◌^◌, ◌≡◌, ◌⊎◌, inl, inr, refl, List, ◌++◌, arith, length, take, drop, get_elem?,
  ◌-◌, sym, ap, ◌∙◌, append_assoc, length-append, length-take, drop-append, take-append,
  get_elem?-append_right, get_elem?-drop, get_elem?-take,
}

-- The bytes at the place of a write, and those beside it.
take-drop-overwrite :
    (heap : List ℕ) (addr : ℕ) (bytes : List ℕ)
    → addr + length bytes ≤ length heap
    → take (length bytes) (drop addr (overwrite heap addr bytes)) ≡ bytes
unfolding overwrite
take-drop-overwrite heap addr bytes h =
    let rest = drop (addr + length bytes) heap in
    let at : addr ≡ length (take addr heap) = omega (arith, length-take addr heap) in
    rw
      (
        append_assoc (take addr heap) bytes rest,
        drop-append (take addr heap) (bytes ++ rest) addr at,
      )
      (take-append bytes rest (length bytes) refl)

overwrite_elsewhere :
    (heap : List ℕ) (addr : ℕ) (bytes : List ℕ) (i : ℕ)
    → addr + length bytes ≤ length heap
    → (i < addr) ⊎ (addr + length bytes ≤ i)
    → get_elem? (overwrite heap addr bytes) i ≡ get_elem? heap i
unfolding overwrite
overwrite_elsewhere heap addr bytes i h (inl before) =
    rw (append_assoc (take addr heap) bytes (drop (addr + length bytes) heap))
      (get_elem?-take addr i heap (bytes ++ drop (addr + length bytes) heap) before (omega arith))
overwrite_elsewhere heap addr bytes i h (inr after) =
    let n = addr + length bytes in
    let front = take addr heap ++ bytes in
    let len : length front ≡ n =
      omega (arith, length-append (take addr heap) bytes, length-take addr heap) in
    get_elem?-append_right front (drop n heap) (i - n) i (omega arith)
    ∙ get_elem?-drop n (i - n) i heap (omega arith)

write_memory_inside :
    (vm : SbfVm) (width addr val : ℕ)
    → addr + width ≤ length vm.heap
    → IsWord (length vm.heap)
    → write_memory width addr val vm
      ≡ (record vm { heap = overwrite vm.heap addr (le_bytes width val) }, ok tt)
unfolding write_memory
write_memory_inside vm width addr val h fits =
    rw (write_memory, checked_range_inside (length vm.heap) addr width h fits) refl

read_memory_inside :
    (vm : SbfVm) (width addr : ℕ)
    → addr + width ≤ length vm.heap
    → IsWord (length vm.heap)
    → read_memory width addr vm ≡ (vm, ok (from_le (take width (drop addr vm.heap))))
unfolding read_memory
read_memory_inside vm width addr h fits =
    rw (read_memory, checked_range_inside (length vm.heap) addr width h fits) refl

-- A write of a value that fits its width, at a place within a heap of machine size, succeeds. The same
-- read then returns the value, the heap has kept its length, and every byte outside the place is as
-- before.
pub read_memory-write_memory :
    (vm : SbfVm) (width addr val : ℕ)
    → addr + width ≤ length vm.heap
    → IsWord (length vm.heap)
    → val < 256 ^ width
    → let (vm', written) = write_memory width addr val vm in
      (written ≡ ok tt)
      × ((read_memory width addr vm').1 ≡ ok val)
      × (length vm'.heap ≡ length vm.heap)
      × ((i : ℕ) → (i < addr) ⊎ (addr + width ≤ i) → get_elem? vm'.heap i ≡ get_elem? vm.heap i)
read_memory-write_memory vm width addr val h fits hv =
    let bytes = le_bytes width val in
    let w : length bytes ≡ width = length-le_bytes width val in
    let inside : addr + length bytes ≤ length vm.heap = omega arith in
    let vm' : SbfVm = record vm { heap = overwrite vm.heap addr bytes } in
    let len : length vm'.heap ≡ length vm.heap = length-overwrite vm.heap addr bytes inside in
    let value : from_le (take width (drop addr vm'.heap)) ≡ val =
      ap (λ n. from_le (take n (drop addr vm'.heap))) (sym w)
      ∙ ap from_le (take-drop-overwrite vm.heap addr bytes inside)
      ∙ from_le-le_bytes width val hv in
    let again = read_memory_inside vm' width addr (omega arith) (omega arith) in
    rw (write_memory_inside vm width addr val h fits, again, value)
      (refl, refl, len, λ i o. overwrite_elsewhere vm.heap addr bytes i inside (rw w o))

checked_range_wrapped :
    (size addr len : ℕ)
    → IsWord addr
    → IsWord len
    → u64_mod ≤ addr + len
    → addr + len ≤ u64_mod + size
    → checked_range size addr len ≡ crash
unfolding checked_range
checked_range_wrapped size addr len ha hl past within = ground arith

-- An access at a 64-bit address of a 64-bit number of bytes that reaches past the end of the address
-- space, and whose wrapped end is within the heap, passes the check of the bounds and panics instead of
-- returning an error, whether it reads a number, reads a slice or writes.
pub wrapped_access_panics :
    (vm : SbfVm) (width addr val : ℕ)
    → IsWord addr
    → IsWord width
    → u64_mod ≤ addr + width
    → addr + width ≤ u64_mod + length vm.heap
    → (read_memory width addr vm ≡ (vm, crash))
      × (read_memory_slice addr width vm ≡ (vm, crash))
      × (write_memory width addr val vm ≡ (vm, crash))
unfolding read_memory read_memory_slice write_memory
wrapped_access_panics vm width addr val ha hw past within =
    let wrapped : checked_range (length vm.heap) addr width ≡ crash =
      checked_range_wrapped (length vm.heap) addr width ha hw past within in
    (
      rw (read_memory, wrapped) refl,
      rw (read_memory_slice, wrapped) refl,
      rw (write_memory, wrapped) refl,
    )
