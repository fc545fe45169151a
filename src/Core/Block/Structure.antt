-- ===== src/Core/Block/Structure.antt =====
-- What the structural checks of a block establish.
-- The code is crates/frychain-core/src/block.rs.
use fry_chain.Prelude.{
  ℕ, ◌≤◌, ◌≡◌, refl, ◌↔◌, none, List, [], ◌∷◌, map, arith, done, length, same_refl, nat_eq, list_eq,
  string_eq, suc,
}
use fry_chain.Core.Hash.{Hash256, zero_hash}
use fry_chain.Core.Block.{
  calculate_transactions_root, finalize, BlockBody, verify_structure, Block, max_block_size,
  max_txs_per_block,
}
use fry_chain.Core.Transaction.{SignedTransaction, signed_hash}
use fry_chain.Core.Merkle.Complete.{get_proof_outside}
use fry_chain.Core.Address.{address_eq}
use fry_chain.Core.Merkle.{root}

module _ (sha3 : List ℕ → Hash256) where
  -- The transactions root of a body is always computed: the tree does not panic.
  pub calculate_transactions_root_done :
      (body : BlockBody) → (h : Hash256) × (calculate_transactions_root sha3 body ≡ done h)
  unfolding calculate_transactions_root
  calculate_transactions_root_done body = root_of body.transactions
    where
      root_of :
          (txs : List SignedTransaction)
          → (h : Hash256) × (calculate_transactions_root sha3 (record { transactions = txs })
              ≡ done h)
      root_of [] = (zero_hash, refl)
      root_of (tx ∷ txs) =
          let (t, built, _) =
            get_proof_outside sha3 (signed_hash sha3 tx) (map (signed_hash sha3) txs)
              (suc (length (map (signed_hash sha3) txs))) (omega arith) in
          (root t, rw built refl)

  -- A finalized block passes the structural checks exactly if it is within the limits on its size,
  -- its number of transactions and its extra data.
  pub verify_structure-finalize :
      (block_size : Block → ℕ) (b : Block)
      → (b' : Block) × (finalize sha3 b ≡ done b')
        × (b'.body ≡ b.body)
        × ((verify_structure sha3 block_size b' ≡ done none)
            ↔ (block_size b' ≤ max_block_size)
              × (length b.body.transactions ≤ max_txs_per_block)
              × (length b.header.extra_data ≤ 32))
  unfolding finalize verify_structure
  verify_structure-finalize block_size b =
      let (h, calculated) = calculate_transactions_root_done b.body in
      let b' = record b { header = record b.header { transactions_root = h } } in
      (b', rw calculated refl, refl, rw calculated (ground (arith, same_refl h)))
