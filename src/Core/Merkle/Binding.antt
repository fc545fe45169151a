-- ===== src/Core/Merkle/Binding.antt =====
-- Two proofs of different leaves at one index against one root give a collision of the hash
-- function. That SHA3-256 returns 32 bytes is the only thing assumed of it.
-- The code is crates/frychain-core/src/merkle.rs.
use fry_chain.Core.Hash.{Hash256}
use fry_chain.Core.Merkle.{MerkleProof, hash_pair, climb, verify}
use fry_chain.Prelude.{
  ℕ, ◌/◌, ◌%◌, ◌≡◌, refl, sym, ap, ◌∙◌, ◌≢◌, ◌⊎◌, inl, inr, true, List, [], ◌∷◌, ◌++◌, arith, ◌==◌,
  if◌then◌else◌, Bool-cases, length, same, list_beq_iff, nat_eq, list_eq, string_eq,
  append_injective,
}
use fry_chain.Core.Address.{address_eq}

-- Two different messages with one hash.
abbrev pub Collision : (List ℕ → Hash256) → Type 0
Collision sha3 = (x y : List ℕ) × (x ≢ y) × (sha3 x ≡ sha3 y)

abbrev pub All32 : List Hash256 → Type 0
All32 [] = Unit
All32 (h ∷ hs) = (length h ≡ 32) × All32 hs

module _ (sha3 : List ℕ → Hash256) (width : (x : List ℕ) → length (sha3 x) ≡ 32) where
  -- The message that is hashed at one step of the climb.
  abbrev message : ℕ → Hash256 → Hash256 → List ℕ
  message i current sibling = if i % 2 == 0 then current ++ sibling else sibling ++ current

  climb-message :
      (i : ℕ) (current sibling : Hash256) (rest : List Hash256)
      → climb sha3 i current (sibling ∷ rest)
        ≡ climb sha3 (i / 2) (sha3 (message i current sibling)) rest
  unfolding climb hash_pair
  climb-message i current sibling rest = elim (Bool-cases (i % 2 == 0)) [
    | inl even ↦ rw even refl
    | inr odd ↦ rw odd refl
  ]

  message_differs :
      (i : ℕ) (a b s t : Hash256)
      → length a ≡ length b
      → length s ≡ length t
      → a ≢ b
      → message i a s ≢ message i b t
  message_differs i a b s t la ls ne = elim (Bool-cases (i % 2 == 0)) [
    | inl even ↦ rw even (λ e. ne (append_injective a b s t la e).0)
    | inr odd ↦ rw odd (λ e. ne (append_injective s t a b ls e).1)
  ]

  climb_binds :
      (hs ks : List Hash256) (i : ℕ) (a b : Hash256)
      → length a ≡ 32
      → length b ≡ 32
      → All32 hs
      → All32 ks
      → length hs ≡ length ks
      → a ≢ b
      → climb sha3 i a hs ≡ climb sha3 i b ks
      → Collision sha3
  unfolding climb
  climb_binds [] [] i a b la lb ah ak e ne meet = absurd (ne meet)
  climb_binds [] (k ∷ ks) i a b la lb ah ak e ne meet = absurd (omega arith)
  climb_binds (h ∷ hs) [] i a b la lb ah ak e ne meet = absurd (omega arith)
  climb_binds (h ∷ hs) (k ∷ ks) i a b la lb ah ak e ne meet =
      let x = message i a h in
      let y = message i b k in
      elim (Bool-cases (same (sha3 x) (sha3 y))) [
        | inl equal ↦ (
          x,
          y,
          message_differs i a b h k (la ∙ sym lb) (ah.0 ∙ sym ak.0) ne,
          (list_beq_iff (sha3 x) (sha3 y)).0 equal,
        )
        | inr differ ↦
            climb_binds hs ks (i / 2) (sha3 x) (sha3 y) (width x) (width y) ah.1 ak.1 (omega arith)
              (λ same_hash. cc ((list_beq_iff (sha3 x) (sha3 y)).1 same_hash))
              (sym (climb-message i a h hs) ∙ meet ∙ climb-message i b k ks)
      ]

  reached :
      (p : MerkleProof)
      → verify sha3 p ≡ true
      → climb sha3 p.leaf_index p.leaf_hash p.proof_hashes ≡ p.root
  unfolding verify
  reached p h = (list_beq_iff (climb sha3 p.leaf_index p.leaf_hash p.proof_hashes) p.root).0 h

  -- Where SHA3-256 returns 32 bytes, two proofs that `verify` accepts, of one index, one length and
  -- one root, over 32-byte hashes, prove the same leaf, or there are two messages that SHA3-256
  -- sends to one hash.
  pub verify_binds :
      (p q : MerkleProof)
      → verify sha3 p ≡ true
      → verify sha3 q ≡ true
      → p.leaf_index ≡ q.leaf_index
      → p.root ≡ q.root
      → length p.proof_hashes ≡ length q.proof_hashes
      → All32 (p.leaf_hash ∷ p.proof_hashes)
      → All32 (q.leaf_hash ∷ q.proof_hashes)
      → (p.leaf_hash ≡ q.leaf_hash) ⊎ Collision sha3
  unfolding verify
  verify_binds p q hp hq index root len wp wq = elim (Bool-cases (same p.leaf_hash q.leaf_hash)) [
    | inl equal ↦ inl ((list_beq_iff p.leaf_hash q.leaf_hash).0 equal)
    | inr differ ↦ inr (
        climb_binds p.proof_hashes q.proof_hashes p.leaf_index p.leaf_hash q.leaf_hash wp.0 wq.0
          wp.1 wq.1 len (λ e. cc ((list_beq_iff p.leaf_hash q.leaf_hash).1 e))
          (reached p hp
            ∙ root
            ∙ sym (reached q hq)
            ∙ ap (λ i. climb sha3 i q.leaf_hash q.proof_hashes) (sym index)))
  ]
