-- ===== src/Words.antt =====
-- Rust's fixed-width unsigned integers over the native numbers. The release build wraps on overflow.
pub mod Bits
pub mod Bitwise
pub mod Bytes
use fry_chain.Prelude.{
  ℕ, zero, suc, ◌+◌, ◌-◌, ◌*◌, ◌/◌, ◌%◌, ◌^◌, ◌<◌, ◌≤◌, ◌≡◌, Option, none, some, arith, ltb, leb,
  ◌==◌, if◌then◌else◌,
}

abbrev pub u64_mod : ℕ
u64_mod = 2 ^ 64

abbrev pub u128_mod : ℕ
u128_mod = 2 ^ 128

-- `checked_add`, `saturating_add` at a modulus `m`
abbrev pub checked_add : ℕ → ℕ → ℕ → Option ℕ
checked_add m a b = if ltb (a + b) m then some (a + b) else none

abbrev pub checked_sub : ℕ → ℕ → Option ℕ
checked_sub a b = if leb b a then some (a - b) else none

abbrev pub saturating_add : ℕ → ℕ → ℕ → ℕ
saturating_add m a b = if ltb (a + b) m then a + b else m - 1

abbrev pub wrapping_add : ℕ → ℕ → ℕ → ℕ
wrapping_add m a b = (a + b) % m

abbrev pub wrapping_sub : ℕ → ℕ → ℕ → ℕ
wrapping_sub m a b = (a + m - b) % m

abbrev pub wrapping_mul : ℕ → ℕ → ℕ → ℕ
wrapping_mul m a b = a * b % m
