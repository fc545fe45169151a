-- ===== src/Vm/Sbf/Memory.antt =====
-- crates/frychain-vm/src/sbf.rs: the helpers for the memory. An address is a `usize`: its sum with
-- the width of an access wraps around.
use fry_chain.Words.{u64_mod}
use fry_chain.Words.Bytes.{le_bytes, from_le}
use fry_chain.Vm.Types.{invalid_memory_access}
use fry_chain.Vm.Action.{Ended, ok, fail, crash}
use fry_chain.Vm.Sbf.{Action}
use fry_chain.Prelude.{
  ℕ, ◌+◌, ◌%◌, none, some, List, ◌++◌, ltb, leb, if◌then◌else◌, length, get_elem?, set_elem, take,
  drop,
}

-- `&self.heap[addr..addr + len]` after the check of `addr + len`. A range that ends before it starts
-- panics.
unfoldable pub checked_range : ℕ → ℕ → ℕ → Ended (Unit {0})
checked_range size addr len =
    let stop = (addr + len) % u64_mod in
    if ltb size stop
    then fail (invalid_memory_access addr)
    else if ltb stop addr
    then crash
    else ok tt

unfoldable pub read_memory_u8 : ℕ → Action ℕ
read_memory_u8 addr vm = elim (get_elem? vm.heap addr) [
  | none ↦ (vm, fail (invalid_memory_access addr))
  | some byte ↦ (vm, ok byte)
]

-- `read_memory_slice`
unfoldable pub read_memory_slice : ℕ → ℕ → Action (List ℕ)
unfolding checked_range
read_memory_slice addr len vm = elim (checked_range (length vm.heap) addr len) [
  | ok _ ↦ (vm, ok (take len (drop addr vm.heap)))
  | fail e ↦ (vm, fail e)
  | crash ↦ (vm, crash)
]

-- `read_memory_u16`, `read_memory_u32` and `read_memory_u64`, by the bytes that they read.
unfoldable pub read_memory : ℕ → ℕ → Action ℕ
unfolding checked_range
read_memory width addr vm = elim (checked_range (length vm.heap) addr width) [
  | ok _ ↦ (vm, ok (from_le (take width (drop addr vm.heap))))
  | fail e ↦ (vm, fail e)
  | crash ↦ (vm, crash)
]

-- `copy_from_slice`
unfoldable pub overwrite : List ℕ → ℕ → List ℕ → List ℕ
overwrite heap addr bytes = take addr heap ++ bytes ++ drop (addr + length bytes) heap

unfoldable pub write_memory_u8 : ℕ → ℕ → Action (Unit {0})
write_memory_u8 addr val vm =
    if leb (length vm.heap) addr
    then (vm, fail (invalid_memory_access addr))
    else (record vm { heap = set_elem vm.heap addr val }, ok tt)

-- `write_memory_u16`, `write_memory_u32` and `write_memory_u64`, by the bytes that they write.
unfoldable pub write_memory : ℕ → ℕ → ℕ → Action (Unit {0})
unfolding checked_range overwrite
write_memory width addr val vm = elim (checked_range (length vm.heap) addr width) [
  | ok _ ↦ (record vm { heap = overwrite vm.heap addr (le_bytes width val) }, ok tt)
  | fail e ↦ (vm, fail e)
  | crash ↦ (vm, crash)
]
