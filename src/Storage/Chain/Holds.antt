-- ===== src/Storage/Chain/Holds.antt =====
-- What a database holds, by the reads of single keys, and that every other read follows from them.
-- The code is crates/frychain-storage/src/chain.rs.
use fry_chain.Results.{good, bad, good_or, ◌>>=◌}
use fry_chain.Words.{u64_mod}
use fry_chain.Core.Hash.{Hash256}
use fry_chain.Core.Amount.{BlockHeight}
use fry_chain.Core.Block.{Block, BlockHeader, BlockBody, StoredBlock}
use fry_chain.Storage.{
  Rocks, StorageResult, StorageError, is_some, database_result, headers_cf, transaction_not_found,
  contains, get,
}
use fry_chain.Storage.Chain.{
  Codecs, BlockMeta, TxLocation, and_found, decoded, meta_of, get_header, get_body, get_block_meta,
  get_block, get_stored_block, get_total_difficulty, has_block, get_hash_by_height,
  get_block_by_height, get_genesis_hash, get_tx_location, get_transaction, get_receipt,
  get_latest_height, get_latest_hash,
}
use fry_chain.Storage.Chain.Reads.{Raw}
use fry_chain.Storage.Chain.Spec.{
  ChainSpec, Represents, transaction_of, transaction_at, spec_transaction, block_of,
}
use mathlib.Core.Option
use fry_chain.Prelude.{ℕ, ◌<◌, ◌≡◌, refl, ap, ◌∙◌, Option, none, some, List, arith, get_elem?}
use fry_chain.Core.Transaction.{SignedTransaction}

decoded_some {ℓ} :
    {A : Type ℓ} (r : Option A) (x : StorageError)
    → ◌≡◌ {A = StorageResult (Option A)} (do a ← good_or r x; good (some a)) (good none)
    → ⊥
decoded_some none x e = cc
decoded_some (some a) x e = cc

module _ (codecs : Codecs) (hex : List ℕ → List ℕ) (sha3 : List ℕ → Hash256) (R : Rocks) where
  -- The reads of single keys give what the abstract store says.
  pub record Holds (db : R.Db) (spec : ChainSpec) : Type 0 where
    pub headers :
        (k : Hash256)
        → get_header codecs hex sha3 R db k
          ≡ good (Option.map (λ (s : StoredBlock). s.block.header) (spec.blocks k))
    pub bodies :
        (k : Hash256)
        → get_body codecs hex sha3 R db k
          ≡ good (Option.map (λ (s : StoredBlock). s.block.body) (spec.blocks k))
    pub metas :
        (k : Hash256)
        → get_block_meta codecs hex sha3 R db k
          ≡ good (Option.map (meta_of codecs hex sha3) (spec.blocks k))
    pub heights :
        (n : BlockHeight)
        → n < u64_mod
        → get_hash_by_height codecs hex sha3 R db n ≡ good (spec.heights n)
    pub locations : (k : Hash256) → get_tx_location codecs hex sha3 R db k ≡ good (spec.locations k)
    pub receipts : (k : Hash256) → get_receipt codecs hex sha3 R db k ≡ good (spec.receipts k)
    pub latest : get_latest_height codecs hex sha3 R db ≡ good spec.latest

  pub Represents-Holds :
      (db : R.Db) (spec : ChainSpec) → Represents codecs hex sha3 R db spec → Holds db spec
  Represents-Holds db spec rep = record {
    headers = rep.header;
    bodies = rep.body;
    metas = rep.meta;
    heights = rep.by_height;
    locations = rep.location;
    receipts = rep.receipt;
    latest = rep.latest_height;
  }

  module _ (db : R.Db) (spec : ChainSpec) (holds : Holds db spec) where
    join_block :
        (o : Option StoredBlock) (h : StorageResult (Option BlockHeader))
        (b : StorageResult (Option BlockBody))
        → h ≡ good (Option.map (λ (s : StoredBlock). s.block.header) o)
        → b ≡ good (Option.map (λ (s : StoredBlock). s.block.body) o)
        → and_found h
            (λ header. and_found b (λ body. good (some (record { header = header; body = body }))))
          ≡ good (Option.map (λ (s : StoredBlock). s.block) o)
    join_block none h b eh eb = rw eh refl
    join_block (some s) h b eh eb = rw (eh, eb) refl

    block_read :
        (k : Hash256)
        → get_block codecs hex sha3 R db k
          ≡ good (Option.map (λ (s : StoredBlock). s.block) (spec.blocks k))
    unfolding get_block
    block_read k = join_block (spec.blocks k) _ _ (holds.headers k) (holds.bodies k)

    join_stored :
        (o : Option StoredBlock) (b : StorageResult (Option Block))
        (m : StorageResult (Option BlockMeta))
        → b ≡ good (Option.map (λ (s : StoredBlock). s.block) o)
        → m ≡ good (Option.map (meta_of codecs hex sha3) o)
        → and_found b (λ block. and_found m (λ meta. good (
            some record {
              block = block;
              pow_hash = meta.pow_hash;
              total_difficulty = meta.total_difficulty;
              is_canonical = meta.is_canonical;
            })))
          ≡ good o
    join_stored none b m eb em = rw eb refl
    join_stored (some s) b m eb em = rw (eb, em) refl

    stored_read : (k : Hash256) → get_stored_block codecs hex sha3 R db k ≡ good (spec.blocks k)
    unfolding get_stored_block
    stored_read k = join_stored (spec.blocks k) _ _ (block_read k) (holds.metas k)

    difficulty_from :
        (o : Option StoredBlock)
        → and_found
            (good (Option.map (meta_of codecs hex sha3) o))
            (λ meta. good (some meta.total_difficulty))
          ≡ good (Option.map (λ (s : StoredBlock). s.total_difficulty) o)
    difficulty_from none = refl
    difficulty_from (some s) = refl

    total_difficulty_read :
        (k : Hash256)
        → get_total_difficulty codecs hex sha3 R db k
          ≡ good (Option.map (λ (s : StoredBlock). s.total_difficulty) (spec.blocks k))
    unfolding get_total_difficulty
    total_difficulty_read k =
        ap (λ m. and_found m (λ (meta : BlockMeta). good (some meta.total_difficulty)))
          (holds.metas k)
        ∙ difficulty_from (spec.blocks k)

    present_from :
        (raw : Raw) (o : Option StoredBlock)
        → (do bytes ← database_result raw; decoded codecs.header bytes)
          ≡ good (Option.map (λ (s : StoredBlock). s.block.header) o)
        → (do value ← database_result raw; good (is_some R value)) ≡ good (is_some R o)
    present_from (good none) none e = refl
    present_from (good none) (some s) e = cc
    present_from (good (some bytes)) none e =
        absurd (decoded_some (codecs.header.deserialize bytes) _ e)
    present_from (good (some bytes)) (some s) e = refl
    present_from (bad m) o e = cc

    present_read :
        (k : Hash256) → has_block codecs hex sha3 R db k ≡ good (is_some R (spec.blocks k))
    unfolding has_block contains get get_header
    present_read k = present_from (R.get_cf db headers_cf k) (spec.blocks k) (holds.headers k)

    block_from :
        (o : Option Hash256)
        → and_found (good o) (get_block codecs hex sha3 R db) ≡ good (block_of spec.blocks o)
    block_from none = refl
    block_from (some hash) = block_read hash

    transaction_from_block :
        (o : Option StoredBlock) (index : ℕ)
        → and_found (good (Option.map (λ (s : StoredBlock). s.block) o)) (λ block. do
          tx ←
              good_or
                (get_elem? block.body.transactions index)
                (transaction_not_found "not in its block")
          good (some tx))
          ≡ transaction_of o index
    transaction_from_block none index = refl
    transaction_from_block (some s) index = found (get_elem? s.block.body.transactions index)
      where
        found :
            (t : Option SignedTransaction)
            → (do tx ← good_or t (transaction_not_found "not in its block"); good (some tx))
              ≡ elim t [
                | none ↦ bad (transaction_not_found "not in its block")
                | some tx ↦ good (some tx)
              ]
        found none = refl
        found (some tx) = refl

    transaction_from :
        (o : Option TxLocation)
        → and_found (good o) (λ loc.
          and_found (get_block codecs hex sha3 R db loc.block_hash) (λ block. do
            tx ←
                good_or
                  (get_elem? block.body.transactions loc.tx_index)
                  (transaction_not_found "not in its block")
            good (some tx)))
          ≡ transaction_at spec.blocks o
    transaction_from none = refl
    transaction_from (some loc) =
        rw (block_read loc.block_hash)
          (transaction_from_block (spec.blocks loc.block_hash) loc.tx_index)

    transaction_read :
        (k : Hash256) → get_transaction codecs hex sha3 R db k ≡ spec_transaction spec k
    unfolding get_transaction
    transaction_read k = rw (holds.locations k) (transaction_from (spec.locations k))

    latest_hash_read :
        (n : BlockHeight)
        → n < u64_mod
        → spec.latest ≡ some n
        → get_latest_hash codecs hex sha3 R db ≡ good (spec.heights n)
    unfolding get_latest_hash
    latest_hash_read n fits at = rw (holds.latest, at) (holds.heights n fits)

    no_latest_hash_read : spec.latest ≡ none → get_latest_hash codecs hex sha3 R db ≡ good none
    unfolding get_latest_hash
    no_latest_hash_read at = rw (holds.latest, at) refl

    block_by_height_read :
        (n : BlockHeight)
        → n < u64_mod
        → get_block_by_height codecs hex sha3 R db n ≡ good (block_of spec.blocks (spec.heights n))
    unfolding get_block_by_height
    block_by_height_read n fits = rw (holds.heights n fits) (block_from (spec.heights n))

    genesis_read : get_genesis_hash codecs hex sha3 R db ≡ good (spec.heights 0)
    unfolding get_genesis_hash
    genesis_read = holds.heights 0 (omega arith)

    -- Every read of the store follows from those of single keys.
    pub Holds-Represents : Represents codecs hex sha3 R db spec
    Holds-Represents = record {
      header = holds.headers;
      body = holds.bodies;
      meta = holds.metas;
      block = block_read;
      stored = stored_read;
      total_difficulty = total_difficulty_read;
      present = present_read;
      by_height = holds.heights;
      block_by_height = block_by_height_read;
      genesis = genesis_read;
      location = holds.locations;
      transaction = transaction_read;
      receipt = holds.receipts;
      latest_height = holds.latest;
      no_latest_hash = no_latest_hash_read;
      latest_hash = latest_hash_read;
    }
