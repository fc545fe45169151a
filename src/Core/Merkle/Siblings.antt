-- ===== src/Core/Merkle/Siblings.antt =====
-- The siblings that a proof collects lead from a leaf to the root.
-- The code is crates/frychain-core/src/merkle.rs.
use native.Mathlib.Nat.{pow-suc, one-le-pow}
use mathlib.Core.List.{append_assoc}
use fry_chain.Core.Hash.{Hash256, zero_hash}
use fry_chain.Core.Merkle.{climb, sibling_index, siblings}
use fry_chain.Core.Merkle.Levels.{pairs, above, top, get_or-pairs, length-pairs_pow}
use fry_chain.Prelude.{
  ℕ, zero, suc, ◌/◌, ◌%◌, ◌^◌, ◌<◌, ◌≡◌, refl, inl, inr, List, ◌∷◌, ◌++◌, arith, ◌==◌, Bool-cases,
  done, length, get_or, ◌+◌, ap, ◌∙◌, true, [], ltb, lt→ltb, length-append, get_or-append_left,
  get_or-append_right, nat_eq, list_eq, string_eq,
}
use fry_chain.Core.Address.{address_eq}

module _ (sha3 : List ℕ → Hash256) where
  -- One step of the climb leads from a node of a level to its parent.
  climb_step :
      (k i : ℕ) (xs hs : List Hash256)
      → length xs ≡ 2 ^ suc k
      → i < 2 ^ suc k
      → climb sha3 i (get_or xs i zero_hash) (get_or xs (sibling_index i) zero_hash ∷ hs)
        ≡ climb sha3 (i / 2) (get_or (pairs sha3 xs) (i / 2) zero_hash) hs
  unfolding climb sibling_index
  climb_step k i xs hs h l =
      rw (get_or-pairs sha3 (2 ^ k) i xs (omega (arith, pow-suc 2 k)) (omega arith))
        (elim (Bool-cases (i % 2 == 0)) [ inl even ↦ rw even refl | inr odd ↦ rw odd refl ])

  sibling_index-lt : (k i : ℕ) → i < 2 ^ suc k → sibling_index i < 2 ^ suc k
  unfolding sibling_index
  sibling_index-lt k i h = ground (arith, pow-suc 2 k)

  siblings_step :
      (k fuel i start : ℕ) (nodes hs : List Hash256)
      → siblings fuel nodes (i / 2) (start + 2 ^ suc k) (2 ^ k) ≡ done hs
      → siblings (suc fuel) nodes i start (2 ^ suc k)
        ≡ done (get_or nodes (start + sibling_index i) zero_hash ∷ hs)
  unfolding siblings
  siblings_step k fuel i start nodes hs h = rw (wide, half, h) refl
    where
      wide : ltb 1 (2 ^ suc k) ≡ true
      wide = lt→ltb 1 (2 ^ suc k) (omega (arith, pow-suc 2 k, one-le-pow k 2 (omega arith)))

      half : 2 ^ suc k / 2 ≡ 2 ^ k
      half = omega (arith, pow-suc 2 k)

  -- A node's neighbour, read from the nodes of the whole tree.
  sibling_value :
      (k i start : ℕ) (before xs rest : List Hash256)
      → length xs ≡ 2 ^ suc k
      → i < 2 ^ suc k
      → start ≡ length before
      → get_or (before ++ (xs ++ rest)) (start + sibling_index i) zero_hash
        ≡ get_or xs (sibling_index i) zero_hash
  sibling_value k i start before xs rest h l e =
      get_or-append_right before (xs ++ rest) (sibling_index i) (start + sibling_index i) zero_hash
        (omega arith)
      ∙ get_or-append_left xs rest (sibling_index i) zero_hash
          (omega (arith, sibling_index-lt k i l))

  -- From a node of a level of `2 ^ k` hashes on, `get_proof` collects hashes by which the climb ends
  -- at the root.
  pub siblings_lem :
      (k fuel i start : ℕ) (before xs : List Hash256)
      → length xs ≡ 2 ^ k
      → i < 2 ^ k
      → k < fuel
      → start ≡ length before
      → (hs : List Hash256) × (siblings fuel (before ++ (xs ++ above sha3 k xs)) i start (2 ^ k)
          ≡ done hs)
        × (climb sha3 i (get_or xs i zero_hash) hs ≡ top sha3 k xs)
        × (length hs ≡ k)
  siblings_lem k zero i start before xs h l f e = absurd (omega arith)
  siblings_lem zero (suc fuel) i start before xs h l f e = (
    [],
    unfold siblings in refl,
    unfold climb in ap (λ j. get_or xs j zero_hash) (omega arith),
    refl,
  )
  siblings_lem (suc k) (suc fuel) i start before xs h l f e =
      let (hs, found, reaches, len) =
        siblings_lem k fuel (i / 2) (start + 2 ^ suc k) (before ++ xs) (pairs sha3 xs)
          (length-pairs_pow sha3 k xs h) (omega (arith, pow-suc 2 k)) (omega arith)
          (omega (arith, length-append before xs)) in
      (
        get_or xs (sibling_index i) zero_hash ∷ hs,
        siblings_step k fuel i start _ hs
              (rw (append_assoc before xs (pairs sha3 xs ++ above sha3 k (pairs sha3 xs))) at found)
            ∙ ap (λ v. done (v ∷ hs))
                (sibling_value k i start before xs (pairs sha3 xs ++ above sha3 k (pairs sha3 xs)) h
                  l e),
        climb_step k i xs hs h l ∙ reaches,
        ap suc len,
      )
  -- The tree over a list of leaves that is not empty.
