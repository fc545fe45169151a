-- ===== src/Core/Merkle/Levels.antt =====
-- The levels of a Merkle tree over `2 ^ k` leaves, and the nodes that `build` collects.
-- The code is crates/frychain-core/src/merkle.rs.
use native.Mathlib.Nat.{pow-suc}
use fry_chain.Core.Hash.{Hash256, zero_hash}
use fry_chain.Core.Merkle.{hash_pair, next_level, build, power_from, next_power_of_two}
use fry_chain.Prelude.{
  ℕ, zero, suc, ◌+◌, ◌-◌, ◌*◌, ◌/◌, ◌%◌, ◌^◌, ◌≤◌, ◌<◌, ◌≡◌, refl, ◌∙◌, List, [], ◌∷◌, ◌++◌, arith,
  ◌==◌, if◌then◌else◌, done, length, get_or, last_or, sym, ap, inl, inr, true, ltb, lt→ltb,
  Bool-cases,
}
use mathlib.Core.List.{append-nil, append_assoc}

double : (k : ℕ) → 2 ^ suc k ≡ 2 * 2 ^ k
double k = omega (arith, pow-suc 2 k)

pub lt-two_pow : (k : ℕ) → k < 2 ^ k
lt-two_pow zero = omega arith
lt-two_pow (suc k) = omega (arith, lt-two_pow k, double k)

power_from_lem : (fuel k n : ℕ) → n ≤ k + fuel → n ≤ 2 ^ power_from fuel k n
unfolding power_from
power_from_lem zero k n h = omega (arith, lt-two_pow k)
power_from_lem (suc fuel) k n h = ground (arith, power_from_lem fuel (k + 1) n)

pub next_power_of_two_lem : (n : ℕ) → (k : ℕ) × (next_power_of_two n ≡ 2 ^ k) × (n ≤ 2 ^ k)
unfolding next_power_of_two
next_power_of_two_lem n = (power_from n 0 n, refl, power_from_lem n 0 n (omega arith))

module _ (sha3 : List ℕ → Hash256) where
  -- The level above, where the number of hashes is even.
  abbrev pub pairs : List Hash256 → List Hash256
  pairs [] = []
  pairs (a ∷ []) = []
  pairs (a ∷ b ∷ rest) = hash_pair sha3 a b ∷ pairs rest

  -- All nodes above a level of `2 ^ k` hashes, and the last of them.
  abbrev pub above : ℕ → List Hash256 → List Hash256
  above zero xs = []
  above (suc k) xs = pairs xs ++ above k (pairs xs)

  abbrev pub top : ℕ → List Hash256 → Hash256
  top zero xs = get_or xs 0 zero_hash
  top (suc k) xs = top k (pairs xs)

  pub next_level-eq-pairs :
      (m : ℕ) (xs : List Hash256) → length xs ≡ 2 * m → next_level sha3 xs ≡ done (pairs xs)
  unfolding next_level
  next_level-eq-pairs m [] h = refl
  next_level-eq-pairs m (a ∷ []) h = absurd (omega arith)
  next_level-eq-pairs m (a ∷ b ∷ rest) h = rw (next_level-eq-pairs (m - 1) rest (omega arith)) refl

  pub length-pairs : (m : ℕ) (xs : List Hash256) → length xs ≡ 2 * m → length (pairs xs) ≡ m
  length-pairs m [] h = omega arith
  length-pairs m (a ∷ []) h = absurd (omega arith)
  length-pairs m (a ∷ b ∷ rest) h = omega (arith, length-pairs (m - 1) rest (omega arith))

  pub length-pairs_pow :
      (k : ℕ) (xs : List Hash256) → length xs ≡ 2 ^ suc k → length (pairs xs) ≡ 2 ^ k
  length-pairs_pow k xs h = length-pairs (2 ^ k) xs (omega (arith, double k))

  get_or_tail :
      (i : ℕ) (b : Hash256) (rest : List Hash256)
      → 0 < i
      → get_or (b ∷ rest) i zero_hash ≡ get_or rest (i - 1) zero_hash
  get_or_tail zero b rest h = absurd (omega arith)
  get_or_tail (suc i) b rest h = ap (λ j. get_or rest j zero_hash) (omega arith)

  -- The hash of the two neighbours stands at half the index.
  pub get_or-pairs :
      (m i : ℕ) (xs : List Hash256)
      → length xs ≡ 2 * m
      → i < length xs
      → get_or (pairs xs) (i / 2) zero_hash ≡ (
          if i % 2 == 0
          then hash_pair sha3 (get_or xs i zero_hash) (get_or xs (i + 1) zero_hash)
          else hash_pair sha3 (get_or xs (i - 1) zero_hash) (get_or xs i zero_hash))
  get_or-pairs m i [] h l = absurd (omega arith)
  get_or-pairs m i (a ∷ []) h l = absurd (omega arith)
  get_or-pairs m zero (a ∷ b ∷ rest) h l = refl
  get_or-pairs m (suc zero) (a ∷ b ∷ rest) h l = refl
  get_or-pairs m (suc (suc i)) (a ∷ b ∷ rest) h l =
      let half : suc (suc i) / 2 ≡ suc (i / 2) = omega arith in
      let parity : suc (suc i) % 2 ≡ i % 2 = omega arith in
      let past : suc (suc i) + 1 ≡ suc (suc (i + 1)) = omega arith in
      let before : suc (suc i) - 1 ≡ suc i = omega arith in
      let ih = get_or-pairs (m - 1) i rest (omega arith) (omega arith) in
      rw (half, parity, past, before)
        (elim (Bool-cases (i % 2 == 0)) [
          | inl even ↦ rw even (rw even at ih)
          | inr odd ↦ rw (odd, get_or_tail i b rest (ground arith)) (rw odd at ih)
        ])

  pub build-above :
      (k fuel : ℕ) (xs all : List Hash256)
      → length xs ≡ 2 ^ k
      → k < fuel
      → build sha3 fuel xs all ≡ done (all ++ above k xs)
  unfolding build
  build-above k zero xs all h l = absurd (omega arith)
  build-above zero (suc fuel) xs all h l = rw h (ap done (sym (append-nil all)))
  build-above (suc k) (suc fuel) xs all h l =
      rw (wide, next_level-eq-pairs (2 ^ k) xs (omega (arith, double k)))
        (rw
          (build-above k fuel (pairs xs) (all ++ pairs xs) (length-pairs_pow k xs h) (omega arith))
          (ap done (append_assoc all (pairs xs) (above k (pairs xs)))))
    where
      wide : ltb 1 (length xs) ≡ true
      wide = lt→ltb 1 (length xs) (omega (arith, double k, lt-two_pow k))

  last_or-append :
      (d : Hash256) (xs ys : List Hash256) → last_or d (xs ++ ys) ≡ last_or (last_or d xs) ys
  last_or-append d [] ys = refl
  last_or-append d (x ∷ xs) ys = last_or-append x xs ys

  -- The last node is the root.
  pub last_or-above :
      (k : ℕ) (d : Hash256) (xs : List Hash256)
      → length xs ≡ 2 ^ k
      → last_or d (xs ++ above k xs) ≡ top k xs
  last_or-above zero d [] h = absurd (omega arith)
  last_or-above zero d (x ∷ []) h = refl
  last_or-above zero d (x ∷ y ∷ xs) h = absurd (omega arith)
  last_or-above (suc k) d xs h =
      last_or-append d xs (pairs xs ++ above k (pairs xs))
      ∙ last_or-above k (last_or d xs) (pairs xs) (length-pairs_pow k xs h)
