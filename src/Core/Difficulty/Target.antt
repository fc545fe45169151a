-- ===== src/Core/Difficulty/Target.antt =====
-- How hard the target of a difficulty is to meet.
-- The code is crates/frychain-core/src/types.rs.
use native.Mathlib.Nat.{pow-le-pow_right}
use fry_chain.Prelude.{
  ℕ, ◌<◌, ◌≤◌, ◌≡◌, ◌^◌, replicate, arith, List, min, length, ◌+◌, ◌∷◌, ◌/◌, ◌%◌, true, ◌∙◌, sym,
  suc, ap, zero, refl, [], ◌*◌,
}
use fry_chain.Core.Difficulty.{to_target, fill_target}
use fry_chain.Core.Hash.Order.{be_value, IsBytes, meets_difficulty-iff-le}
use fry_chain.Core.Hash.{Hash256, meets_difficulty}
use fry_chain.Words.Bits.{leading_zeros, leading_zeros_small, trailing_zeros, leading_zeros_large}

fill_target_last :
    (b n : ℕ) → b < 256 → 31 ≤ n → n ≤ 31 → be_value (fill_target n b (replicate 32 0xff)) ≡ b
fill_target_last b n h l u = let e : n ≡ 31 = omega arith in rw e (omega arith)

length-fill_target : (n b : ℕ) (ts : List ℕ) → length (fill_target n b ts) ≡ length ts
length-fill_target n b [] = refl
length-fill_target zero b (t ∷ ts) = refl
length-fill_target (suc n) b (t ∷ ts) = ap suc (length-fill_target n b ts)

scaled_up : (b p : ℕ) → 1 ≤ b → p ≤ b * p
scaled_up b p h = grind arith

-- A byte that is not zero before the last place makes the target at least 256.
fill_target_early :
    (n b : ℕ) (ts : List ℕ) → 1 ≤ b → n + 2 ≤ length ts → 256 ≤ be_value (fill_target n b ts)
fill_target_early n b [] h l = absurd (omega arith)
fill_target_early zero b (t ∷ ts) h l = omega (
  arith,
  pow-le-pow_right {n = 256} (omega arith) {i = 1} {j = length ts} (omega arith),
  scaled_up b (256 ^ length ts) h,
)
fill_target_early (suc n) b (t ∷ ts) h l = omega (arith, fill_target_early n b ts h (omega arith))

-- The byte that `to_target` writes behind the zeros.
edge_byte : (k : ℕ) → (1 ≤ 0xff / 2 ^ (k % 8)) × (0xff / 2 ^ (k % 8) < 256)
edge_byte k = all_shifts (k % 8) (omega arith)
  where
    all_shifts : (s : ℕ) → s < 8 → (1 ≤ 0xff / 2 ^ s) × (0xff / 2 ^ s < 256)
    all_shifts zero h = omega arith
    all_shifts (suc zero) h = omega arith
    all_shifts (suc (suc zero)) h = omega arith
    all_shifts (suc (suc (suc zero))) h = omega arith
    all_shifts (suc (suc (suc (suc zero)))) h = omega arith
    all_shifts (suc (suc (suc (suc (suc zero))))) h = omega arith
    all_shifts (suc (suc (suc (suc (suc (suc zero)))))) h = omega arith
    all_shifts (suc (suc (suc (suc (suc (suc (suc zero))))))) h = omega arith
    all_shifts (suc (suc (suc (suc (suc (suc (suc (suc s)))))))) h = absurd (omega arith)

-- Below 2 ^ 97 every difficulty asks for 31 zero bytes and a last byte of at most 255.
to_target_small : (d : ℕ) → d < 2 ^ 97 → be_value (to_target d) < 256
unfolding to_target
to_target_small d h =
    let e : min (leading_zeros 128 d) 31 ≡ 31 = omega (arith, leading_zeros_small 128 97 d h) in
    rw e (omega (arith, edge_byte (trailing_zeros 128 d)))

to_target_large : (d : ℕ) → 2 ^ 98 ≤ d → 256 ≤ be_value (to_target d)
unfolding to_target
to_target_large d h =
    fill_target_early (min (leading_zeros 128 d) 31) _ (replicate 32 0xff)
      (edge_byte (trailing_zeros 128 d)).0
      (omega (arith, leading_zeros_large 128 98 d h (omega arith)))

fill_target-IsBytes : (n b : ℕ) (ts : List ℕ) → b < 256 → IsBytes ts → IsBytes (fill_target n b ts)
fill_target-IsBytes n b [] h k = tt
fill_target-IsBytes zero b (t ∷ ts) h k = (h, k.1)
fill_target-IsBytes (suc n) b (t ∷ ts) h k = (omega arith, fill_target-IsBytes n b ts h k.1)

to_target-IsBytes : (d : ℕ) → IsBytes (to_target d)
unfolding to_target
to_target-IsBytes d =
    fill_target-IsBytes (min (leading_zeros 128 d) 31) _ (replicate 32 0xff)
      (edge_byte (trailing_zeros 128 d)).1 (omega arith)

length-to_target : (d : ℕ) → length (to_target d) ≡ 32
unfolding to_target
length-to_target d = length-fill_target (min (leading_zeros 128 d) 31) _ (replicate 32 0xff)

-- Raising the difficulty from below 2 ^ 97 to 2 ^ 98 or more makes the target a larger number, so
-- that the block is easier to mine: every 32-byte hash that meets the target of the lower
-- difficulty meets that of the higher one.
pub to_target_inverted :
    (d e : ℕ) (hash : Hash256)
    → d < 2 ^ 97
    → 2 ^ 98 ≤ e
    → IsBytes hash
    → length hash ≡ 32
    → (be_value (to_target d) < be_value (to_target e))
      × (meets_difficulty hash (to_target d) ≡ true → meets_difficulty hash (to_target e) ≡ true)
to_target_inverted d e hash h k bytes len = (
  omega (arith, to_target_small d h, to_target_large e k),
  λ met.
      (meets_difficulty-iff-le hash (to_target e) bytes (to_target-IsBytes e)
          (len ∙ sym (length-to_target e))).1
        (omega (
          arith,
          to_target_small d h,
          to_target_large e k,
          (meets_difficulty-iff-le hash (to_target d) bytes (to_target-IsBytes d)
                (len ∙ sym (length-to_target d))).0
              met,
        )),
)
