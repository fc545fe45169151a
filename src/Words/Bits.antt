-- ===== src/Words/Bits.antt =====
-- `leading_zeros` and `trailing_zeros` of a word of `w` bits.
use native.Mathlib.Nat.{pow-le-pow_right}
use fry_chain.Prelude.{ℕ, zero, suc, ◌-◌, ◌/◌, ◌%◌, ◌^◌, ◌<◌, ◌≤◌, arith, leb, ◌==◌, if◌then◌else◌}

unfoldable pub leading_zeros : ℕ → ℕ → ℕ
leading_zeros zero x = 0
leading_zeros (suc w) x = if leb (2 ^ w) x then 0 else suc (leading_zeros w x)

unfoldable pub trailing_zeros : ℕ → ℕ → ℕ
trailing_zeros zero x = 0
trailing_zeros (suc w) x = if x % 2 == 0 then suc (trailing_zeros w (x / 2)) else 0

pub leading_zeros-le : (w x : ℕ) → leading_zeros w x ≤ w
unfolding leading_zeros
leading_zeros-le zero x = omega arith
leading_zeros-le (suc w) x = ground (arith, leading_zeros-le w x)

pub two_pow_mono : (i j : ℕ) → i ≤ j → 2 ^ i ≤ 2 ^ j
two_pow_mono i j h = pow-le-pow_right (omega arith) h

-- A word below `2 ^ k` has at least `w - k` leading zeros, and one from `2 ^ k` on fewer.
pub leading_zeros_small : (w k x : ℕ) → x < 2 ^ k → w - k ≤ leading_zeros w x
unfolding leading_zeros
leading_zeros_small zero k x h = omega arith
leading_zeros_small (suc w) k x h = ground (arith, leading_zeros_small w k x h, two_pow_mono k w)

pub leading_zeros_large : (w k x : ℕ) → 2 ^ k ≤ x → k < w → leading_zeros w x < w - k
unfolding leading_zeros
leading_zeros_large zero k x h l = absurd (omega arith)
leading_zeros_large (suc w) k x h l = ground (arith, leading_zeros_large w k x h, two_pow_mono w k)
