-- ===== src/Core/Block.antt =====
-- crates/frychain-core/src/block.rs: headers, blocks, their hashes and structural checks. SHA3-256
-- is the argument `sha3`, the size of a block's bincode form the argument `block_size`.
pub mod Structure
use fry_chain.Words.Bytes.{le_bytes}
use fry_chain.Prelude.{
  ℕ, ◌*◌, Bool, not, Option, none, some, List, [], ◌∷◌, map, ltb, if◌then◌else◌, and_then, Outcome,
  done, length, joined, same, nat_eq, list_eq, string_eq, true,
}
use fry_chain.Core.Amount.{BlockHeight, Nonce}
use fry_chain.Core.Address.{Address, address_eq}
use fry_chain.Core.Hash.{Hash256, zero_hash, meets_difficulty}
use fry_chain.Core.Transaction.{SignedTransaction, signed_hash}
use fry_chain.Core.Difficulty.{to_target}
use fry_chain.Core.Merkle.{from_hashes, root}

pub record BlockHeader : Type 0 where
  pub version : ℕ
  pub height : BlockHeight
  pub timestamp : ℕ
  pub parent_hash : Hash256
  pub transactions_root : Hash256
  pub state_root : Hash256
  pub receipts_root : Hash256
  pub miner : Address
  pub difficulty : ℕ
  pub nonce : Nonce
  pub extra_data : List ℕ
  pub gas_used : ℕ
  pub gas_limit : ℕ

-- `BlockHeader::new` at a time of the clock.
unfoldable pub new_header : ℕ → BlockHeight → Hash256 → Address → ℕ → BlockHeader
new_header now height parent_hash miner difficulty = record {
  version = 1;
  height = height;
  timestamp = now;
  parent_hash = parent_hash;
  transactions_root = zero_hash;
  state_root = zero_hash;
  receipts_root = zero_hash;
  miner = miner;
  difficulty = difficulty;
  nonce = 0;
  extra_data = [];
  gas_used = 0;
  gas_limit = 30_000_000;
}

-- The bytes that are mined: the extra data and the gas fields are not among them.
unfoldable pub mining_blob : BlockHeader → List ℕ
mining_blob h = joined (
    le_bytes 4 h.version
    ∷ le_bytes 8 h.height
    ∷ le_bytes 8 h.timestamp
    ∷ h.parent_hash
    ∷ h.transactions_root
    ∷ h.state_root
    ∷ h.receipts_root
    ∷ h.miner.bytes
    ∷ le_bytes 16 h.difficulty
    ∷ le_bytes 8 h.nonce
    ∷ [])

-- The bytes that `BlockHeader::hash` feeds to the hash function.
unfoldable pub header_bytes : BlockHeader → List ℕ
header_bytes h = joined (
    le_bytes 4 h.version
    ∷ le_bytes 8 h.height
    ∷ le_bytes 8 h.timestamp
    ∷ h.parent_hash
    ∷ h.transactions_root
    ∷ h.state_root
    ∷ h.receipts_root
    ∷ h.miner.bytes
    ∷ le_bytes 16 h.difficulty
    ∷ le_bytes 8 h.nonce
    ∷ h.extra_data
    ∷ le_bytes 8 h.gas_used
    ∷ le_bytes 8 h.gas_limit
    ∷ [])

unfoldable pub header_hash : (List ℕ → Hash256) → BlockHeader → Hash256
header_hash sha3 h = sha3 (header_bytes h)

unfoldable pub verify_pow : BlockHeader → Hash256 → Bool
verify_pow h pow_hash = meets_difficulty pow_hash (to_target h.difficulty)

pub record BlockBody : Type 0 where
  pub transactions : List SignedTransaction

pub record Block : Type 0 where
  pub header : BlockHeader
  pub body : BlockBody

abbrev pub max_block_size : ℕ
max_block_size = 4 * 1024 * 1024

abbrev pub max_txs_per_block : ℕ
max_txs_per_block = 10_000

-- The `&'static str` errors of `verify_structure`.
pub data StructureError : Type 0 where
  invalid_transactions_root block_too_large too_many_transactions extra_data_too_long :
      StructureError

-- `Block::genesis`; the extra data is "FryChain Genesis Block".
unfoldable pub genesis : List ℕ → Address → ℕ → Block
genesis message miner initial_difficulty = record {
  header = record (new_header 1704067200 0 zero_hash miner initial_difficulty) {
    extra_data = message;
  };
  body = record { transactions = [] };
}

pub record StoredBlock : Type 0 where
  pub block : Block
  pub pow_hash : Hash256
  pub total_difficulty : ℕ
  pub is_canonical : Bool

-- `StoredBlock::new`
unfoldable pub new_stored : Block → Hash256 → ℕ → StoredBlock
new_stored block pow_hash total_difficulty = record {
  block = block;
  pow_hash = pow_hash;
  total_difficulty = total_difficulty;
  is_canonical = true;
}

module _ (sha3 : List ℕ → Hash256) where
  -- A panic of the tree would be a panic here.
  unfoldable pub calculate_transactions_root : BlockBody → Outcome Hash256
  calculate_transactions_root body = elim body.transactions [
    | [] ↦ done zero_hash
    | tx ∷ txs ↦
        and_then (from_hashes sha3 (map (signed_hash sha3) (tx ∷ txs))) (λ tree. done (root tree))
  ]

  -- `Block::finalize`
  unfoldable pub finalize : Block → Outcome Block
  finalize b =
      and_then (calculate_transactions_root b.body)
        (λ root. done (record b { header = record b.header { transactions_root = root } }))

  -- `none` is `Ok(())`.
  unfoldable pub verify_structure : (Block → ℕ) → Block → Outcome (Option StructureError)
  verify_structure block_size b = and_then (calculate_transactions_root b.body) (λ calculated.
      done (
        if not (same calculated b.header.transactions_root)
        then some invalid_transactions_root
        else if ltb max_block_size (block_size b)
        then some block_too_large
        else if ltb max_txs_per_block (length b.body.transactions)
        then some too_many_transactions
        else if ltb 32 (length b.header.extra_data)
        then some extra_data_too_long
        else none))
