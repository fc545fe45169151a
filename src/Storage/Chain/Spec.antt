-- ===== src/Storage/Chain/Spec.antt =====
-- The abstract store of the chain, and when a database represents it.
-- The code is crates/frychain-storage/src/chain.rs.
use fry_chain.Results.{good}
use fry_chain.Words.{u64_mod}
use fry_chain.Core.Hash.{Hash256}
use fry_chain.Core.Amount.{BlockHeight}
use fry_chain.Core.Block.{StoredBlock, header_hash}
use fry_chain.Storage.{Rocks}
use fry_chain.Storage.Chain.{
  Codec, Codecs, get_stored_block, get_hash_by_height, get_latest_height, meta_of,
}
use fry_chain.Results.{bad}
use fry_chain.Core.Block.{Block}
use fry_chain.Core.Transaction.{SignedTransaction, signed_hash, TransactionReceipt}
use fry_chain.Storage.{StorageResult, transaction_not_found, is_some}
use fry_chain.Storage.Chain.{
  TxLocation, get_header, get_body, get_block_meta, get_block, get_total_difficulty, has_block,
  get_block_by_height, get_genesis_hash, get_tx_location, get_transaction, get_receipt,
  get_latest_hash,
}
use mathlib.Core.Option
use fry_chain.Prelude.{
  ◌+◌, ◌%◌, ◌^◌, get_elem?, ℕ, ◌<◌, ◌&&◌, ◌≡◌, Option, none, some, List, same, nat_eq, list_eq,
  string_eq, if◌then◌else◌, ◌==◌, [], ◌∷◌,
}

-- The abstract store.
pub record ChainSpec : Type 0 where
  pub blocks : Hash256 → Option StoredBlock
  pub heights : BlockHeight → Option Hash256
  pub locations : Hash256 → Option TxLocation
  pub receipts : Hash256 → Option TransactionReceipt
  pub latest : Option BlockHeight

abbrev pub empty_chain : ChainSpec
empty_chain = record {
  blocks = λ hash. none;
  heights = λ height. none;
  locations = λ hash. none;
  receipts = λ hash. none;
  latest = none;
}

-- Where the transaction of hash `k` is after a block with these transactions, of which the first has
-- the index `idx`: at the last one of that hash, or where it was.
abbrev pub spec_locations :
    (List ℕ → Hash256)
    → Hash256
    → BlockHeight
    → ℕ
    → List SignedTransaction
    → Hash256
    → Option TxLocation
    → Option TxLocation
spec_locations sha3 hash height idx [] k old = old
spec_locations sha3 hash height idx (tx ∷ txs) k old =
    spec_locations sha3 hash height (idx + 1) txs k (
      if same (signed_hash sha3 tx) k
      then some (record { block_hash = hash; block_height = height; tx_index = idx % 2 ^ 32 })
      else old)

abbrev pub spec_put : (List ℕ → Hash256) → StoredBlock → ChainSpec → ChainSpec
spec_put sha3 stored spec =
    let hash = header_hash sha3 stored.block.header in
    record spec {
      blocks = λ k. if same hash k then some stored else spec.blocks k;
      heights = λ n.
          if stored.is_canonical && stored.block.header.height == n
          then some hash
          else spec.heights n;
      locations = λ k.
          spec_locations sha3 hash stored.block.header.height 0 stored.block.body.transactions k
            (spec.locations k);
    }

abbrev pub spec_set_latest : BlockHeight → ChainSpec → ChainSpec
spec_set_latest height spec = record spec { latest = some height }

abbrev pub spec_put_receipt : Hash256 → TransactionReceipt → ChainSpec → ChainSpec
spec_put_receipt tx_hash receipt spec = record spec {
  receipts = λ k. if same tx_hash k then some receipt else spec.receipts k;
}

-- The transaction of a hash: the one at its location, if its block is there.
abbrev pub transaction_of : Option StoredBlock → ℕ → StorageResult (Option SignedTransaction)
transaction_of none index = good none
transaction_of (some stored) index = elim (get_elem? stored.block.body.transactions index) [
  | none ↦ bad (transaction_not_found "not in its block")
  | some tx ↦ good (some tx)
]

abbrev pub transaction_at :
    (Hash256 → Option StoredBlock) → Option TxLocation → StorageResult (Option SignedTransaction)
transaction_at blocks none = good none
transaction_at blocks (some loc) = transaction_of (blocks loc.block_hash) loc.tx_index

abbrev pub spec_transaction : ChainSpec → Hash256 → StorageResult (Option SignedTransaction)
spec_transaction spec k = transaction_at spec.blocks (spec.locations k)

-- The block of a hash that may be missing.
abbrev pub block_of : (Hash256 → Option StoredBlock) → Option Hash256 → Option Block
block_of blocks none = none
block_of blocks (some hash) = Option.map (λ (s : StoredBlock). s.block) (blocks hash)

-- bincode reads back what it has written.
pub record IsCodec {ℓ} {A : Type ℓ} (c : Codec A) : Type ℓ where
  pub round : (a : A) (bytes : List ℕ) → c.serialize a ≡ some bytes → c.deserialize bytes ≡ some a

pub record AreCodecs (codecs : Codecs) : Type 0 where
  pub header : IsCodec codecs.header
  pub body : IsCodec codecs.body
  pub meta : IsCodec codecs.meta

pub record AreAllCodecs (codecs : Codecs) : Type 0 where
  pub chain : AreCodecs codecs
  pub location : IsCodec codecs.location
  pub receipt : IsCodec codecs.receipt

module _ (codecs : Codecs) (hex : List ℕ → List ℕ) (sha3 : List ℕ → Hash256) (R : Rocks) where
  -- Every read of the store gives what the abstract store says.
  pub record Represents (db : R.Db) (spec : ChainSpec) : Type 0 where
    pub header :
        (k : Hash256)
        → get_header codecs hex sha3 R db k
          ≡ good (Option.map (λ (s : StoredBlock). s.block.header) (spec.blocks k))
    pub body :
        (k : Hash256)
        → get_body codecs hex sha3 R db k
          ≡ good (Option.map (λ (s : StoredBlock). s.block.body) (spec.blocks k))
    pub meta :
        (k : Hash256)
        → get_block_meta codecs hex sha3 R db k
          ≡ good (Option.map (meta_of codecs hex sha3) (spec.blocks k))
    pub block :
        (k : Hash256)
        → get_block codecs hex sha3 R db k
          ≡ good (Option.map (λ (s : StoredBlock). s.block) (spec.blocks k))
    pub stored : (k : Hash256) → get_stored_block codecs hex sha3 R db k ≡ good (spec.blocks k)
    pub total_difficulty :
        (k : Hash256)
        → get_total_difficulty codecs hex sha3 R db k
          ≡ good (Option.map (λ (s : StoredBlock). s.total_difficulty) (spec.blocks k))
    pub present :
        (k : Hash256) → has_block codecs hex sha3 R db k ≡ good (is_some R (spec.blocks k))
    pub by_height :
        (n : BlockHeight)
        → n < u64_mod
        → get_hash_by_height codecs hex sha3 R db n ≡ good (spec.heights n)
    pub block_by_height :
        (n : BlockHeight)
        → n < u64_mod
        → get_block_by_height codecs hex sha3 R db n ≡ good (block_of spec.blocks (spec.heights n))
    pub genesis : get_genesis_hash codecs hex sha3 R db ≡ good (spec.heights 0)
    pub location : (k : Hash256) → get_tx_location codecs hex sha3 R db k ≡ good (spec.locations k)
    pub transaction :
        (k : Hash256) → get_transaction codecs hex sha3 R db k ≡ spec_transaction spec k
    pub receipt : (k : Hash256) → get_receipt codecs hex sha3 R db k ≡ good (spec.receipts k)
    pub latest_height : get_latest_height codecs hex sha3 R db ≡ good spec.latest
    pub no_latest_hash : spec.latest ≡ none → get_latest_hash codecs hex sha3 R db ≡ good none
    pub latest_hash :
        (n : BlockHeight)
        → n < u64_mod
        → spec.latest ≡ some n
        → get_latest_hash codecs hex sha3 R db ≡ good (spec.heights n)
