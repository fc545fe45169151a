-- ===== src/Core/Hash.antt =====
-- crates/frychain-core/src/types.rs: `Hash256`, a byte string whose first byte weighs most.
pub mod Order
use fry_chain.Prelude.{
  ℕ, zero, suc, ◌+◌, ◌-◌, Bool, true, false, ◌&&◌, List, [], ◌∷◌, ◌++◌, min, ltb, ◌==◌, length,
  take, replicate, if◌then◌else◌,
}
use fry_chain.Words.Bits.{leading_zeros}

-- `[u8; 32]`
abbrev pub Hash256 : Type 0
Hash256 = List ℕ

abbrev pub zero_hash : Hash256
zero_hash = replicate 32 0

-- `iter().all(|&b| b == 0)`
abbrev pub is_zero : List ℕ → Bool
is_zero [] = true
is_zero (b ∷ bs) = b == 0 && is_zero bs

-- `Hash256::from_slice`: cut or padded to 32 bytes
unfoldable pub from_slice : List ℕ → Hash256
from_slice bytes = let len = min (length bytes) 32 in take len bytes ++ replicate (32 - len) 0

-- `Hash256::leading_zeros`: the loop stops at the first byte that is not zero
unfoldable pub count_zeros : List ℕ → ℕ
count_zeros [] = 0
count_zeros (b ∷ bs) = if b == 0 then 8 + count_zeros bs else leading_zeros 8 b

unfoldable pub meets_difficulty : Hash256 → Hash256 → Bool
meets_difficulty [] _ = true
meets_difficulty (h ∷ hs) [] = true
meets_difficulty (h ∷ hs) (t ∷ ts) =
    if ltb h t then true else if ltb t h then false else meets_difficulty hs ts
