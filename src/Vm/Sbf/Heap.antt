-- ===== src/Vm/Sbf/Heap.antt =====
-- The heap of the register machine: what an access within its bounds reads and writes, and that every
-- access keeps the machine sound.
-- The code is crates/frychain-vm/src/sbf.rs.
use native.Mathlib.Nat.{pow-le-pow_right}
use fry_chain.Words.Bytes.{le_bytes, from_le, length-le_bytes, le_bytes-All, from_le_bound}
use fry_chain.Vm.Action.{ok}
use fry_chain.Vm.Sbf.Keeps.{Keeps, Returns, IsWord, IsByte, Later-refl}
use fry_chain.Vm.Sbf.Memory.{
  read_memory_u8, read_memory, write_memory_u8, write_memory, checked_range, overwrite,
}
use fry_chain.Prelude.{
  ℕ, ◌+◌, ◌≤◌, ◌≡◌, List, All, All-get_elem?, All-set_elem, All-append, All-take, All-drop,
  length-set_elem, length-append, length-take, length-drop, arith, length, ◌++◌, take, drop, ◌^◌,
}

-- A range that passes the check lies within the heap: the sum has not wrapped around.
pub checked_range_ok :
    (size addr len : ℕ)
    → IsWord addr
    → IsWord len
    → checked_range size addr len ≡ ok tt
    → addr + len ≤ size
unfolding checked_range
checked_range_ok size addr len ha hl e = ground arith

-- A range within a heap of machine size passes the check.
pub checked_range_inside :
    (size addr len : ℕ) → addr + len ≤ size → IsWord size → checked_range size addr len ≡ ok tt
unfolding checked_range
checked_range_inside size addr len h s = ground arith

pub length-overwrite :
    (heap : List ℕ) (addr : ℕ) (bytes : List ℕ)
    → addr + length bytes ≤ length heap
    → length (overwrite heap addr bytes) ≡ length heap
unfolding overwrite
length-overwrite heap addr bytes h = omega (
  arith,
  length-append (take addr heap ++ bytes) (drop (addr + length bytes) heap),
  length-append (take addr heap) bytes,
  length-take addr heap,
  length-drop (addr + length bytes) heap,
)

overwrite-All :
    (heap : List ℕ) (addr : ℕ) (bytes : List ℕ)
    → All IsByte heap
    → All IsByte bytes
    → All IsByte (overwrite heap addr bytes)
unfolding overwrite
overwrite-All heap addr bytes h k =
    All-append IsByte (take addr heap ++ bytes) (drop (addr + length bytes) heap)
      (All-append IsByte (take addr heap) bytes (All-take IsByte addr heap h) k)
      (All-drop IsByte (addr + length bytes) heap h)

pub read_memory_u8-Keeps : (addr : ℕ) → Keeps (read_memory_u8 addr)
unfolding read_memory_u8
read_memory_u8-Keeps addr = record { keeps = λ vm s. ground (arith, Later-refl vm) }

pub read_memory_u8-Returns : (addr : ℕ) → Returns IsWord (read_memory_u8 addr)
unfolding read_memory_u8
read_memory_u8-Returns addr = record {
  returns = λ vm s a e. ground (arith, All-get_elem? IsByte vm.heap addr a s.heap_fits);
}

pub read_memory-Keeps : (width addr : ℕ) → Keeps (read_memory width addr)
unfolding read_memory
read_memory-Keeps width addr = record { keeps = λ vm s. ground (arith, Later-refl vm) }

take_bound :
    (heap : List ℕ) (width : ℕ) → width ≤ 8 → All IsByte heap → IsWord (from_le (take width heap))
take_bound heap width h k =
    let few : length (take width heap) ≤ 8 = omega (arith, length-take width heap) in
    let short : 256 ^ length (take width heap) ≤ 256 ^ 8 = pow-le-pow_right (omega arith) few in
    omega (arith, from_le_bound (take width heap) (All-take IsByte width heap k), short)

pub read_memory-Returns : (width addr : ℕ) → width ≤ 8 → Returns IsWord (read_memory width addr)
unfolding read_memory
read_memory-Returns width addr h = record {
  returns = λ vm s a e.
      ground
        (arith, take_bound (drop addr vm.heap) width h (All-drop IsByte addr vm.heap s.heap_fits));
}

pub write_memory_u8-Keeps : (addr val : ℕ) → IsByte val → Keeps (write_memory_u8 addr val)
unfolding write_memory_u8
write_memory_u8-Keeps addr val fits = record {
  keeps = λ vm s. ground (
    arith,
    All-set_elem IsByte vm.heap addr val s.heap_fits fits,
    length-set_elem vm.heap addr val,
  );
}

pub write_memory-Keeps :
    (width addr val : ℕ) → IsWord width → IsWord addr → Keeps (write_memory width addr val)
unfolding write_memory
write_memory-Keeps width addr val hw ha = record {
  keeps = λ vm s. ground (
    arith,
    checked_range_ok (length vm.heap) addr width ha hw,
    length-le_bytes width val,
    length-overwrite vm.heap addr (le_bytes width val),
    overwrite-All vm.heap addr (le_bytes width val) s.heap_fits (le_bytes-All width val),
  );
}
