-- ===== src/Core/Config/Emission.antt =====
-- The coins that block rewards issue over time.
-- The code is crates/frychain-core/src/config.rs.
use native.Mathlib.Nat.{pow-suc, div-div-eq-div-mul, zero-div, zero-mod, mod-lt}
use fry_chain.Core.Config.{ChainConfig, block_reward_at_height, mainnet, testnet}
use fry_chain.Prelude.{
  ℕ, zero, suc, ◌+◌, ◌*◌, ◌/◌, ◌%◌, ◌^◌, ◌≤◌, ◌<◌, ◌≡◌, ◌⊎◌, none, some, arith, leb, if◌then◌else◌,
  sym, inl, inr,
}

-- The reward of a block after `k` halvings.
abbrev reward : ℕ → ℕ → ℕ
reward r k = if leb 64 k then 0 else r / 2 ^ k

-- The rewards of the blocks below a height, added up. A panic issues nothing.
abbrev pub issued : ChainConfig → ℕ → ℕ
issued c zero = 0
issued c (suc h) = issued c h + (elim (block_reward_at_height c h) [ none ↦ 0 | some r ↦ r ])

-- One reward of each of the first `k` periods.
abbrev periods : ℕ → ℕ → ℕ
periods r zero = 0
periods r (suc k) = periods r k + reward r k

halved : (r k : ℕ) → 2 * (r / 2 ^ suc k) ≤ r / 2 ^ k
halved r k = rw (pow-suc 2 k, ← div-div-eq-div-mul r (2 ^ k) 2) (omega arith)

periods-le : (r k : ℕ) → periods r k + 2 * (r / 2 ^ k) ≤ 2 * r
periods-le r zero = omega arith
periods-le r (suc k) = ground (arith, periods-le r k, halved r k)

-- The next height is in the same period, or it is the first of the next one.
next_quotient :
    (n i : ℕ)
    → 0 < i
    → (suc n / i ≡ n / i) × (suc n % i ≡ n % i + 1)
      ⊎ (suc n / i ≡ suc (n / i)) × (suc n % i ≡ 0) × (n % i + 1 ≡ i)
next_quotient n i h = grind arith

-- What is issued in the full periods, and in the part of the next one that has begun.
abbrev closed_form : ℕ → ℕ → ℕ → ℕ → ℕ
closed_form i r q m = i * periods r q + m * reward r q

period_step :
    (i r q m : ℕ) → m + 1 ≡ i → closed_form i r (suc q) 0 ≡ closed_form i r q m + reward r q
period_step i r q m h = rw (← h) (omega arith)

issued_step :
    (c : ChainConfig) (h : ℕ)
    → 0 < c.halving_interval
    → issued c (suc h) ≡ issued c h + reward c.initial_block_reward (h / c.halving_interval)
unfolding block_reward_at_height
issued_step c h pos = ground arith

issued-eq-closed_form :
    (c : ChainConfig) (h : ℕ)
    → 0 < c.halving_interval
    → issued c h
      ≡ closed_form c.halving_interval c.initial_block_reward
          (h / c.halving_interval)
          (h % c.halving_interval)
issued-eq-closed_form c zero pos = rw (zero-div, zero-mod) (omega arith)
issued-eq-closed_form c (suc h) pos =
    let i = c.halving_interval in
    let r = c.initial_block_reward in
    elim (next_quotient h i pos) [
      | inl same_period ↦
          rw (issued_step c h pos, same_period.0, same_period.1, issued-eq-closed_form c h pos)
            (omega arith)
      | inr new_period ↦
          rw (issued_step c h pos, new_period.0, new_period.1, issued-eq-closed_form c h pos)
            (sym (period_step i r (h / i) (h % i) new_period.2))
    ]

scaled : (a b w : ℕ) → a ≤ b → a * w ≤ b * w
scaled a b w h = grind arith

closed_form-le :
    (i r q m : ℕ) → m ≤ i → periods r q + reward r q ≤ 2 * r → closed_form i r q m ≤ 2 * r * i
closed_form-le i r q m h k = products i (periods r q) (reward r q) r m h k
  where
    products : (i p w r m : ℕ) → m ≤ i → p + w ≤ 2 * r → i * p + m * w ≤ 2 * r * i
    products i p w r m h k = omega (arith, scaled m i w h, scaled (p + w) (2 * r) i k)

periods-reward-le : (r q : ℕ) → periods r q + reward r q ≤ 2 * r
periods-reward-le r q = ground (arith, periods-le r q)

-- Where the halving interval is not zero, block rewards issue at most two initial rewards for each
-- height of an interval, however long the chain grows.
pub issued-le :
    (c : ChainConfig) (h : ℕ)
    → 0 < c.halving_interval
    → issued c h ≤ 2 * c.initial_block_reward * c.halving_interval
issued-le c h pos = rw (issued-eq-closed_form c h pos) (
    closed_form-le c.halving_interval c.initial_block_reward (h / c.halving_interval)
      (h % c.halving_interval) (omega (arith, mod-lt h pos))
      (periods-reward-le c.initial_block_reward (h / c.halving_interval)))

-- On the main network and on the test network, block rewards never issue more than the maximum
-- supply that the configuration declares.
pub issued-le-max_supply :
    (h : ℕ) → (issued mainnet h ≤ mainnet.max_supply) × (issued testnet h ≤ testnet.max_supply)
unfolding mainnet testnet
issued-le-max_supply h = (
  omega (arith, issued-le mainnet h (omega arith)),
  omega (arith, issued-le testnet h (omega arith)),
)
