-- ===== src/Core/Merkle/Complete.antt =====
-- Every leaf of a tree has a proof, and the proof verifies.
-- The code is crates/frychain-core/src/merkle.rs.
use mathlib.Core.List.{append_assoc}
use fry_chain.Core.Hash.{Hash256, zero_hash}
use fry_chain.Core.Merkle.{
  MerkleTree, MerkleProof, root, pad, from_hashes, climb, verify, siblings, get_proof,
  next_power_of_two,
}
use fry_chain.Core.Merkle.Levels.{
  above, build-above, last_or-above, next_power_of_two_lem, lt-two_pow,
}
use fry_chain.Prelude.{
  ℕ, ◌^◌, ◌<◌, ◌≡◌, refl, List, ◌∷◌, ◌++◌, arith, done, length, get_or, ◌+◌, ◌-◌, ◌≤◌, ap, ◌∙◌,
  true, [], replicate, length-append, length-replicate, get_or-append_left, none, some, get_elem?,
  get_elem?-append_left, sym, false, leb, same, same_refl, nat_eq, list_eq, string_eq,
}
use fry_chain.Core.Address.{address_eq}
use fry_chain.Core.Merkle.Siblings.{siblings_lem}

module _ (sha3 : List ℕ → Hash256) where
  length-pad : (n : ℕ) (xs : List Hash256) → length xs ≤ n → length (pad n xs) ≡ n
  unfolding pad
  length-pad n xs h = omega (
    arith,
    length-append xs (replicate (n - length xs) zero_hash),
    length-replicate (n - length xs) zero_hash,
  )

  from_hashes_lem :
      (leaf : Hash256) (leaves : List Hash256)
      → (k : ℕ) × (next_power_of_two (length (leaf ∷ leaves)) ≡ 2 ^ k)
        × (length (leaf ∷ leaves) ≤ 2 ^ k)
        × (from_hashes sha3 (leaf ∷ leaves)
            ≡ done (record {
              nodes = pad (2 ^ k) (leaf ∷ leaves) ++ above sha3 k (pad (2 ^ k) (leaf ∷ leaves));
              leaf_count = length (leaf ∷ leaves);
            }))
  unfolding from_hashes
  from_hashes_lem leaf leaves =
      let (k, power, enough) = next_power_of_two_lem (length (leaf ∷ leaves)) in
      let level = pad (2 ^ k) (leaf ∷ leaves) in
      let full : length level ≡ 2 ^ k = length-pad (2 ^ k) (leaf ∷ leaves) enough in
      (
        k,
        power,
        enough,
        rw power (
            rw (build-above sha3 k (length level) level level full (omega (arith, lt-two_pow k)))
              refl),
      )

  get_elem?-pad :
      (n i : ℕ) (xs rest : List Hash256)
      → i < length xs
      → get_elem? (pad n xs ++ rest) i ≡ some (get_or xs i zero_hash)
  unfolding pad
  get_elem?-pad n i xs rest h = rw (append_assoc) (get_elem?-append_left xs _ i zero_hash h)

  get_or-pad :
      (n i : ℕ) (xs : List Hash256)
      → i < length xs
      → get_or (pad n xs) i zero_hash ≡ get_or xs i zero_hash
  unfolding pad
  get_or-pad n i xs h = get_or-append_left xs _ i zero_hash h

  -- What `get_proof` returns for a leaf's index, and that it verifies.
  abbrev pub Proves : MerkleTree → List Hash256 → ℕ → MerkleProof → Type 0
  Proves t leaves i p =
      (get_proof t i ≡ done (some p))
      × (p.leaf_index ≡ i)
      × (p.leaf_hash ≡ get_or leaves i zero_hash)
      × (p.root ≡ root t)
      × (verify sha3 p ≡ true)

  -- The tree over `xs`, padded to `2 ^ k` leaves.
  abbrev tree : ℕ → List Hash256 → MerkleTree
  tree k xs = record {
    nodes = pad (2 ^ k) xs ++ above sha3 k (pad (2 ^ k) xs);
    leaf_count = length xs;
  }

  leb-false : (a b : ℕ) → b < a → leb a b ≡ false
  leb-false a b h = ground arith

  get_proof_done :
      (k i : ℕ) (xs hs : List Hash256)
      → next_power_of_two (length xs) ≡ 2 ^ k
      → i < length xs
      → siblings (2 ^ k + 1) (tree k xs).nodes i 0 (2 ^ k) ≡ done hs
      → get_proof (tree k xs) i
        ≡ done (
            some (record {
              leaf_index = i;
              leaf_hash = get_or xs i zero_hash;
              proof_hashes = hs;
              root = root (tree k xs);
            }))
  unfolding get_proof
  get_proof_done k i xs hs power h found =
      rw
        (
          leb-false (length xs) i h,
          power,
          found,
          get_elem?-pad (2 ^ k) i xs (above sha3 k (pad (2 ^ k) xs)) h,
        )
        refl

  leaf_proof :
      (k i : ℕ) (xs : List Hash256)
      → next_power_of_two (length xs) ≡ 2 ^ k
      → length xs ≤ 2 ^ k
      → i < length xs
      → (p : MerkleProof) × Proves (tree k xs) xs i p
  unfolding verify root
  leaf_proof k i xs power enough h =
      let full : length (pad (2 ^ k) xs) ≡ 2 ^ k = length-pad (2 ^ k) xs enough in
      let (hs, found, reaches, len) =
        siblings_lem sha3 k (2 ^ k + 1) i 0 [] (pad (2 ^ k) xs) full (omega arith)
          (omega (arith, lt-two_pow k)) refl in
      let climbs : climb sha3 i (get_or xs i zero_hash) hs ≡ root (tree k xs) =
        ap (λ v. climb sha3 i v hs) (sym (get_or-pad (2 ^ k) i xs h))
        ∙ reaches
        ∙ sym (last_or-above sha3 k zero_hash (pad (2 ^ k) xs) full) in
      (
        record {
          leaf_index = i;
          leaf_hash = get_or xs i zero_hash;
          proof_hashes = hs;
          root = root (tree k xs);
        },
        (
          get_proof_done k i xs hs power h found,
          refl,
          refl,
          refl,
          ap (λ v. same v (root (tree k xs))) climbs ∙ same_refl (root (tree k xs)),
        ),
      )

  -- For the index of a leaf, neither building the tree over a list of leaves nor `get_proof` panics,
  -- and the proof that is returned is of that leaf against the tree's root, and `verify` accepts it.
  pub get_proof-verify :
      (leaf : Hash256) (leaves : List Hash256) (i : ℕ)
      → i < length (leaf ∷ leaves)
      → (t : MerkleTree) × (from_hashes sha3 (leaf ∷ leaves) ≡ done t)
        × (p : MerkleProof) × Proves t (leaf ∷ leaves) i p
  get_proof-verify leaf leaves i h =
      let (k, power, enough, built) = from_hashes_lem leaf leaves in
      let (p, proves) = leaf_proof k i (leaf ∷ leaves) power enough h in
      (tree k (leaf ∷ leaves), built, p, proves)

  -- For any other index `get_proof` returns no proof, and does not panic.
  pub get_proof_outside :
      (leaf : Hash256) (leaves : List Hash256) (i : ℕ)
      → length (leaf ∷ leaves) ≤ i
      → (t : MerkleTree) × (from_hashes sha3 (leaf ∷ leaves) ≡ done t) × (get_proof t i ≡ done none)
  unfolding get_proof
  get_proof_outside leaf leaves i h =
      let (k, power, enough, built) = from_hashes_lem leaf leaves in
      (tree k (leaf ∷ leaves), built, ground arith)
