-- ===== src/Words/Bitwise.antt =====
-- `&`, `|` and `^` of two words of `k` bits are words of `k` bits.
use Prim.Native.Nat.{digits, bit_and-bitwise, bit_or-bitwise, bit_xor-bitwise, differ}
use native.Mathlib.Nat.{pow-suc}
use fry_chain.Prelude.{
  ℕ, zero, suc, ◌/◌, ◌%◌, ◌^◌, ◌<◌, ◌≤◌, min, max, bit_and, bit_or, bit_xor, arith,
}

module _ (z : ℕ → ℕ) (f : ℕ → ℕ → ℕ) (short : (b : ℕ) → z b ≤ b)
    (bit : (a b : ℕ) → f (a % 2) (b % 2) ≤ 1) where
  digits_bound : (k n a b : ℕ) → a < 2 ^ k → b < 2 ^ k → digits z f n a b < 2 ^ k
  digits_bound k zero a b ha hb = omega (arith, short b)
  digits_bound k (suc n) zero b ha hb = omega (arith, short b)
  digits_bound zero (suc n) (suc a) b ha hb = absurd (omega arith)
  digits_bound (suc k) (suc n) (suc a) b ha hb =
      let two = pow-suc 2 k in
      omega (
        arith,
        bit (suc a) b,
        digits_bound k n (suc a / 2) (b / 2) (omega (arith, two)) (omega (arith, two)),
        two,
      )

pub bit_and_bound : (k a b : ℕ) → a < 2 ^ k → b < 2 ^ k → bit_and a b < 2 ^ k
bit_and_bound k a b ha hb =
    simp bit_and-bitwise
      (digits_bound (λ b. 0) min (λ b. omega arith) (λ a b. omega arith) k a a b ha hb)

pub bit_or_bound : (k a b : ℕ) → a < 2 ^ k → b < 2 ^ k → bit_or a b < 2 ^ k
bit_or_bound k a b ha hb =
    simp bit_or-bitwise
      (digits_bound (λ b. b) max (λ b. omega arith) (λ a b. omega arith) k a a b ha hb)

differ_bit : (a b : ℕ) → a < 2 → b < 2 → differ a b ≤ 1
differ_bit zero b ha hb = omega arith
differ_bit (suc zero) zero ha hb = omega arith
differ_bit (suc zero) (suc b) ha hb = omega arith
differ_bit (suc (suc a)) b ha hb = absurd (omega arith)

pub bit_xor_bound : (k a b : ℕ) → a < 2 ^ k → b < 2 ^ k → bit_xor a b < 2 ^ k
bit_xor_bound k a b ha hb = simp bit_xor-bitwise (
    digits_bound (λ b. b) differ (λ b. omega arith)
      (λ a b. differ_bit (a % 2) (b % 2) (omega arith) (omega arith)) k a a b ha hb)
