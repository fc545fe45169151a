-- ===== src/Core/Amount.antt =====
-- crates/frychain-core/src/types.rs: token amounts, gas, gas prices, nonces and block heights. Each
-- is a newtype of one machine integer, and is modelled by that number.
use fry_chain.Words.{u64_mod, u128_mod, checked_add, checked_sub, wrapping_mul, wrapping_add}
use fry_chain.Prelude.{ℕ, ◌-◌, ◌*◌, ◌<◌, ◌≡◌, Option, none, some, arith, ◌==◌, if◌then◌else◌}

abbrev pub TokenAmount : Type 0
TokenAmount = ℕ

abbrev pub Gas : Type 0
Gas = ℕ

abbrev pub GasPrice : Type 0
GasPrice = ℕ

abbrev pub Nonce : Type 0
Nonce = ℕ

abbrev pub BlockHeight : Type 0
BlockHeight = ℕ

abbrev pub units_per_fry : ℕ
units_per_fry = 1_000_000_000_000_000_000

-- `TokenAmount::from_fry`
unfoldable pub from_fry : ℕ → TokenAmount
from_fry fry = wrapping_mul u128_mod fry units_per_fry

-- `TokenAmount::checked_add`, `TokenAmount::checked_sub`
unfoldable pub add_tokens : TokenAmount → TokenAmount → Option TokenAmount
add_tokens a b = checked_add u128_mod a b

unfoldable pub sub_tokens : TokenAmount → TokenAmount → Option TokenAmount
sub_tokens a b = checked_sub a b

-- `Nonce::increment`
unfoldable pub increment : Nonce → Nonce
increment n = wrapping_add u64_mod n 1

-- `BlockHeight::next`, `BlockHeight::prev`
unfoldable pub next : BlockHeight → BlockHeight
next h = wrapping_add u64_mod h 1

unfoldable pub prev : BlockHeight → Option BlockHeight
prev h = if h == 0 then none else some (h - 1)

-- `GasPrice::total_fee`
unfoldable pub total_fee : GasPrice → Gas → TokenAmount
total_fee price gas = wrapping_mul u128_mod price gas

-- A whole number of tokens never overflows.
pub from_fry-exact : (fry : ℕ) → fry < u64_mod → from_fry fry ≡ fry * units_per_fry
unfolding from_fry
from_fry-exact fry h = omega arith

-- Subtracting what was added gives the amount back.
pub sub_tokens-add_tokens : (a b : ℕ) {c : ℕ} → add_tokens a b ≡ some c → sub_tokens c b ≡ some a
unfolding add_tokens sub_tokens
sub_tokens-add_tokens a b h = ground arith
