-- ===== src/Core/Difficulty.antt =====
-- crates/frychain-core/src/types.rs: `Difficulty` and the target hash that it stands for.
pub mod Target
use fry_chain.Prelude.{ℕ, zero, suc, ◌/◌, ◌%◌, ◌^◌, List, [], ◌∷◌, min, max, replicate}
use fry_chain.Words.Bits.{leading_zeros, trailing_zeros}
use fry_chain.Core.Hash.{Hash256}

-- `Difficulty::new`
unfoldable pub new_difficulty : ℕ → ℕ
new_difficulty value = max value 1

abbrev pub initial : ℕ
initial = 0x0000_ffff_ffff_ffff

-- The loop `for i in 0..leading_zeros { target[i] = 0 }`, then `target[leading_zeros] = b`.
abbrev pub fill_target : ℕ → ℕ → List ℕ → List ℕ
fill_target n b [] = []
fill_target zero b (t ∷ ts) = b ∷ ts
fill_target (suc n) b (t ∷ ts) = 0 ∷ fill_target n b ts

-- `Difficulty::to_target`. The guard `leading_zeros < 32` holds after the `min(31)`.
unfoldable pub to_target : ℕ → Hash256
to_target d =
    fill_target (min (leading_zeros 128 d) 31) (0xff / 2 ^ (trailing_zeros 128 d % 8))
      (replicate 32 0xff)
