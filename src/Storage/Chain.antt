-- ===== src/Storage/Chain.antt =====
-- crates/frychain-storage/src/chain.rs: the store of blocks, transactions and receipts. RocksDB is the
-- parameter `R`, bincode the codecs, SHA3-256 the argument `sha3`, and `hex` writes a hash as text.
pub mod Written
pub mod Reads
pub mod Spec
pub mod Effects
pub mod Holds
pub mod Values
pub mod Refines
pub mod Runs
pub mod Frames
mod Tests
use fry_chain.Words.Bytes.{be_bytes, from_be}
use fry_chain.Core.Hash.{Hash256}
use fry_chain.Core.Amount.{BlockHeight}
use fry_chain.Core.Block.{Block, BlockHeader, BlockBody, StoredBlock, header_hash}
use fry_chain.Core.Transaction.{SignedTransaction, signed_hash, TransactionReceipt}
use fry_chain.Results.{good, bad, ◌>>=◌, good_or}
use fry_chain.Storage.{
  Rocks, StorageResult, serialization_error, deserialization_error, transaction_not_found, BatchOp,
  batch_put, write_batch, get, put, contains, headers_cf, bodies_cf, height_to_hash_cf,
  transactions_cf, receipts_cf, meta_cf,
}
use fry_chain.Prelude.{
  ℕ, ◌+◌, ◌%◌, ◌^◌, Bool, Option, none, some, List, [], ◌∷◌, ◌++◌, ◌==◌, if◌then◌else◌, length,
  get_elem?,
}

-- `bincode::serialize` and `bincode::deserialize` of a type; `none` is an error.
pub record Codec {ℓ} (A : Type ℓ) : Type ℓ where
  pub serialize : A → Option (List ℕ)
  pub deserialize : List ℕ → Option A

pub record BlockMeta : Type 0 where
  pub pow_hash : Hash256
  pub total_difficulty : ℕ
  pub is_canonical : Bool

pub record TxLocation : Type 0 where
  pub block_hash : Hash256
  pub block_height : ℕ
  pub tx_index : ℕ

pub record Codecs : Type 0 where
  pub header : Codec BlockHeader
  pub body : Codec BlockBody
  pub meta : Codec BlockMeta
  pub location : Codec TxLocation
  pub receipt : Codec TransactionReceipt

abbrev pub encoded {ℓ} : {A : Type ℓ} → Codec A → A → StorageResult (List ℕ)
encoded c a = good_or (c.serialize a) (serialization_error "bincode")

-- The value at a key that may be missing.
abbrev pub decoded {ℓ} : {A : Type ℓ} → Codec A → Option (List ℕ) → StorageResult (Option A)
decoded c none = good none
decoded c (some bytes) = do
  a ← good_or (c.deserialize bytes) (deserialization_error "bincode")
  good (some a)

-- `let x = match x? { Some(x) => x, None => return Ok(None) }`
abbrev pub and_found {ℓ κ} :
    {A : Type ℓ} {B : Type κ}
    → StorageResult (Option A)
    → (A → StorageResult (Option B))
    → StorageResult (Option B)
and_found (good none) f = good none
and_found (good (some a)) f = f a
and_found (bad e) f = bad e

-- `format!("block:{}", hash).into_bytes()`
abbrev pub meta_key : (List ℕ → List ℕ) → Hash256 → List ℕ
meta_key hex hash = (b'b' ∷ b'l' ∷ b'o' ∷ b'c' ∷ b'k' ∷ b':' ∷ []) ++ hex hash

-- `b"latest_height"`
abbrev pub latest_height_key : List ℕ
latest_height_key =
    b'l' ∷ b'a' ∷ b't' ∷ b'e' ∷ b's' ∷ b't' ∷ b'_' ∷ b'h' ∷ b'e' ∷ b'i' ∷ b'g' ∷ b'h' ∷ b't' ∷ []

abbrev pub height_key : BlockHeight → List ℕ
height_key height = be_bytes 8 height

-- `hash.copy_from_slice(&bytes)` after the check of the length
abbrev hash_of : List ℕ → StorageResult (Option Hash256)
hash_of bytes =
    if length bytes == 32
    then good (some bytes)
    else bad (deserialization_error "Invalid hash length")

abbrev height_of : List ℕ → StorageResult (Option BlockHeight)
height_of bytes =
    if length bytes == 8
    then good (some (from_be bytes))
    else bad (deserialization_error "Invalid height encoding")

module _ (codecs : Codecs) (hex : List ℕ → List ℕ) (sha3 : List ℕ → Hash256) where
  -- The loop of `put_block` over the transactions, from index `idx` on.
  unfoldable pub put_locations :
      List BatchOp
      → Hash256
      → BlockHeight
      → ℕ
      → List SignedTransaction
      → StorageResult (List BatchOp)
  unfolding batch_put
  put_locations batch hash height idx [] = good batch
  put_locations batch hash height idx (tx ∷ txs) = do
    loc_bytes ←
        encoded codecs.location
          record { block_hash = hash; block_height = height; tx_index = idx % 2 ^ 32 }
    put_locations (batch_put batch transactions_cf (signed_hash sha3 tx) loc_bytes) hash height
        (idx + 1) txs

  abbrev pub meta_of : StoredBlock → BlockMeta
  meta_of stored = record {
    pow_hash = stored.pow_hash;
    total_difficulty = stored.total_difficulty;
    is_canonical = stored.is_canonical;
  }

  -- The batch before the transactions.
  abbrev pub block_ops : StoredBlock → List ℕ → List ℕ → List ℕ → List BatchOp
  block_ops stored header_bytes body_bytes meta_bytes =
      let hash = header_hash sha3 stored.block.header in
      let batch = batch_put (batch_put [] headers_cf hash header_bytes) bodies_cf hash body_bytes in
      let numbered =
        if stored.is_canonical
        then batch_put batch height_to_hash_cf (height_key stored.block.header.height) hash
        else batch in
      batch_put numbered meta_cf (meta_key hex hash) meta_bytes

  module _ (R : Rocks) where
    unfoldable pub put_block : R.Db → StoredBlock → StorageResult R.Db
    unfolding put_locations write_batch batch_put
    put_block db stored = do
      header_bytes ← encoded codecs.header stored.block.header
      body_bytes ← encoded codecs.body stored.block.body
      meta_bytes ← encoded codecs.meta (meta_of stored)
      batch ←
          put_locations (block_ops stored header_bytes body_bytes meta_bytes)
            (header_hash sha3 stored.block.header) stored.block.header.height 0
            stored.block.body.transactions
      write_batch R db batch

    unfoldable pub get_header : R.Db → Hash256 → StorageResult (Option BlockHeader)
    unfolding get
    get_header db hash = do bytes ← get R db headers_cf hash; decoded codecs.header bytes

    unfoldable pub get_body : R.Db → Hash256 → StorageResult (Option BlockBody)
    unfolding get
    get_body db hash = do bytes ← get R db bodies_cf hash; decoded codecs.body bytes

    unfoldable pub get_block : R.Db → Hash256 → StorageResult (Option Block)
    unfolding get_header get_body
    get_block db hash = and_found (get_header db hash) (λ header.
        and_found (get_body db hash)
          (λ body. good (some (record { header = header; body = body }))))

    unfoldable pub get_block_meta : R.Db → Hash256 → StorageResult (Option BlockMeta)
    unfolding get
    get_block_meta db hash = do
      bytes ← get R db meta_cf (meta_key hex hash)
      decoded codecs.meta bytes

    unfoldable pub get_stored_block : R.Db → Hash256 → StorageResult (Option StoredBlock)
    unfolding get_block get_block_meta
    get_stored_block db hash = and_found (get_block db hash) (λ block.
        and_found (get_block_meta db hash) (λ meta. good (
          some record {
            block = block;
            pow_hash = meta.pow_hash;
            total_difficulty = meta.total_difficulty;
            is_canonical = meta.is_canonical;
          })))

    unfoldable pub get_hash_by_height : R.Db → BlockHeight → StorageResult (Option Hash256)
    unfolding get
    get_hash_by_height db height =
        and_found (get R db height_to_hash_cf (height_key height)) hash_of

    unfoldable pub get_block_by_height : R.Db → BlockHeight → StorageResult (Option Block)
    unfolding get_hash_by_height get_block
    get_block_by_height db height = and_found (get_hash_by_height db height) (get_block db)

    unfoldable pub has_block : R.Db → Hash256 → StorageResult Bool
    unfolding contains
    has_block db hash = contains R db headers_cf hash

    unfoldable pub get_tx_location : R.Db → Hash256 → StorageResult (Option TxLocation)
    unfolding get
    get_tx_location db hash = do
      bytes ← get R db transactions_cf hash
      decoded codecs.location bytes

    unfoldable pub get_transaction : R.Db → Hash256 → StorageResult (Option SignedTransaction)
    unfolding get_tx_location get_block
    get_transaction db hash = and_found (get_tx_location db hash) (λ loc.
        and_found (get_block db loc.block_hash) (λ block. do
          tx ←
              good_or (get_elem? block.body.transactions loc.tx_index)
                (transaction_not_found "not in its block")
          good (some tx)))

    unfoldable pub put_receipt : R.Db → Hash256 → TransactionReceipt → StorageResult R.Db
    unfolding put
    put_receipt db tx_hash receipt = do
      bytes ← encoded codecs.receipt receipt
      put R db receipts_cf tx_hash bytes

    unfoldable pub get_receipt : R.Db → Hash256 → StorageResult (Option TransactionReceipt)
    unfolding get
    get_receipt db tx_hash = do bytes ← get R db receipts_cf tx_hash; decoded codecs.receipt bytes

    unfoldable pub get_latest_height : R.Db → StorageResult (Option BlockHeight)
    unfolding get
    get_latest_height db = and_found (get R db meta_cf latest_height_key) height_of

    unfoldable pub set_latest_height : R.Db → BlockHeight → StorageResult R.Db
    unfolding put
    set_latest_height db height = put R db meta_cf latest_height_key (be_bytes 8 height)

    unfoldable pub get_latest_hash : R.Db → StorageResult (Option Hash256)
    unfolding get_latest_height get_hash_by_height
    get_latest_hash db = and_found (get_latest_height db) (get_hash_by_height db)

    unfoldable pub get_genesis_hash : R.Db → StorageResult (Option Hash256)
    unfolding get_hash_by_height
    get_genesis_hash db = get_hash_by_height db 0

    unfoldable pub get_total_difficulty : R.Db → Hash256 → StorageResult (Option ℕ)
    unfolding get_block_meta
    get_total_difficulty db hash =
        and_found (get_block_meta db hash) (λ meta. good (some meta.total_difficulty))
