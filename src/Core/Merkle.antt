-- ===== src/Core/Merkle.antt =====
-- crates/frychain-core/src/merkle.rs: Merkle trees and their proofs. SHA3-256 is the argument
-- `sha3`.
pub mod Levels
pub mod Siblings
pub mod Complete
pub mod Binding
use fry_chain.Core.Hash.{Hash256, zero_hash}
use fry_chain.Prelude.{
  ℕ, zero, suc, ◌+◌, ◌-◌, ◌/◌, ◌%◌, ◌^◌, Bool, false, Option, none, some, List, [], ◌∷◌, ◌++◌, map,
  ltb, leb, ◌==◌, if◌then◌else◌, length, get_elem?, get_or, last_or, replicate, and_then, expect,
  Outcome, done, panic, same, nat_eq, list_eq, string_eq,
}
use fry_chain.Core.Address.{address_eq}

pub record MerkleTree : Type 0 where
  pub nodes : List Hash256
  pub leaf_count : ℕ

pub record MerkleProof : Type 0 where
  pub leaf_index : ℕ
  pub leaf_hash : Hash256
  pub proof_hashes : List Hash256
  pub root : Hash256

-- `usize::next_power_of_two`: the exponent of the least power of two that is at least `n`, searched
-- from `k` on.
unfoldable pub power_from : ℕ → ℕ → ℕ → ℕ
power_from zero k n = k
power_from (suc fuel) k n =
    let more = power_from fuel (k + 1) n in if leb n (2 ^ k) then k else more

unfoldable pub next_power_of_two : ℕ → ℕ
unfolding power_from
next_power_of_two n = 2 ^ power_from n 0 n

-- `while current_level.len() < padded_size { current_level.push(Hash256::zero()) }`
unfoldable pub pad : ℕ → List Hash256 → List Hash256
pad padded_size leaves = leaves ++ replicate (padded_size - length leaves) zero_hash

-- `MerkleTree::root`
unfoldable pub root : MerkleTree → Hash256
root t = last_or zero_hash t.nodes

module _ (sha3 : List ℕ → Hash256) where
  unfoldable pub hash_pair : Hash256 → Hash256 → Hash256
  hash_pair left right = sha3 (left ++ right)

  -- The loop over `current_level.chunks(2)`: `chunk[1]` panics in a chunk of one.
  unfoldable pub next_level : List Hash256 → Outcome (List Hash256)
  unfolding hash_pair
  next_level [] = done []
  next_level (a ∷ []) = panic
  next_level (a ∷ b ∷ rest) = and_then (next_level rest) (λ hs. done (hash_pair a b ∷ hs))

  -- `while current_level.len() > 1`, collecting all nodes
  unfoldable pub build : ℕ → List Hash256 → List Hash256 → Outcome (List Hash256)
  build zero current all = panic
  build (suc fuel) current all =
      let rest = and_then (next_level current) (λ next. build fuel next (all ++ next)) in
      if ltb 1 (length current) then rest else done all

  unfoldable pub from_hashes : List Hash256 → Outcome MerkleTree
  from_hashes [] = done (record { nodes = zero_hash ∷ []; leaf_count = 0 })
  from_hashes (leaf ∷ leaves) =
      let leaf_count = length (leaf ∷ leaves) in
      let level = pad (next_power_of_two leaf_count) (leaf ∷ leaves) in
      and_then (build (length level) level level)
        (λ nodes. done (record { nodes = nodes; leaf_count = leaf_count }))

  -- `from_data`: the hash of each item is a leaf
  unfoldable pub from_data : List (List ℕ) → Outcome MerkleTree
  unfolding from_hashes
  from_data items = from_hashes (map sha3 items)

  -- The loop of `MerkleProof::verify`.
  unfoldable pub climb : ℕ → Hash256 → List Hash256 → Hash256
  unfolding hash_pair
  climb index current [] = current
  climb index current (sibling ∷ rest) =
      climb (index / 2)
        (if index % 2 == 0 then hash_pair current sibling else hash_pair sibling current) rest

  unfoldable pub verify : MerkleProof → Bool
  unfolding climb
  verify p = same (climb p.leaf_index p.leaf_hash p.proof_hashes) p.root

  unfoldable pub verify_leaf : MerkleProof → Hash256 → Bool
  unfolding verify
  verify_leaf p leaf = if same leaf p.leaf_hash then verify p else false

unfoldable pub sibling_index : ℕ → ℕ
sibling_index i = if i % 2 == 0 then i + 1 else i - 1

-- `while level_size > 1` of `get_proof`: a node beyond the end counts as zero.
unfoldable pub siblings : ℕ → List Hash256 → ℕ → ℕ → ℕ → Outcome (List Hash256)
unfolding sibling_index
siblings zero nodes index level_start level_size = panic
siblings (suc fuel) nodes index level_start level_size =
    let rest = siblings fuel nodes (index / 2) (level_start + level_size) (level_size / 2) in
    if ltb 1 level_size
    then and_then rest
        (λ hs. done (get_or nodes (level_start + sibling_index index) zero_hash ∷ hs))
    else done []

-- `none` where the index is no leaf's.
unfoldable pub get_proof : MerkleTree → ℕ → Outcome (Option MerkleProof)
get_proof t index =
    if leb t.leaf_count index
    then done none
    else let padded_size = next_power_of_two t.leaf_count in
      and_then (siblings (padded_size + 1) t.nodes index 0 padded_size) (λ hs.
        and_then (expect (get_elem? t.nodes index)) (λ leaf. done (
          some
            (record { leaf_index = index; leaf_hash = leaf; proof_hashes = hs; root = root t }))))

unfoldable pub get_leaf : MerkleTree → ℕ → Outcome (Option Hash256)
get_leaf t index =
    if ltb index t.leaf_count
    then and_then (expect (get_elem? t.nodes index)) (λ leaf. done (some leaf))
    else done none
