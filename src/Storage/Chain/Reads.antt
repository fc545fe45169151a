-- ===== src/Storage/Chain/Reads.antt =====
-- The readers of the chain store as functions of the bytes at their keys.
-- The code is crates/frychain-storage/src/chain.rs.
use fry_chain.Results.{Result, good, ◌>>=◌}
use fry_chain.Core.Hash.{Hash256}
use fry_chain.Core.Block.{StoredBlock, Block}
use fry_chain.Storage.{Rocks, headers_cf, bodies_cf, meta_cf, StorageResult, database_result}
use fry_chain.Storage.Chain.{
  Codecs, decoded, and_found, get_stored_block, meta_key, hash_of, height_of, get_block, get_header,
  get_body, get_block_meta, get_total_difficulty,
}
use fry_chain.Prelude.{ℕ, ◌≡◌, refl, String, Option, some, List, nat_eq, list_eq, string_eq}

abbrev pub Raw : Type 0
Raw = Result String (Option (List ℕ))

module _ (codecs : Codecs) (hex : List ℕ → List ℕ) (sha3 : List ℕ → Hash256) where
  abbrev pub stored_from : Raw → Raw → Raw → StorageResult (Option StoredBlock)
  stored_from h b m =
      and_found
        (and_found (do bytes ← database_result h; decoded codecs.header bytes)
          (λ header.
            and_found (do bytes ← database_result b; decoded codecs.body bytes)
              (λ body. good (some (record { header = header; body = body })))))
        (λ block.
          and_found (do bytes ← database_result m; decoded codecs.meta bytes)
            (λ meta. good (
              some record {
                block = block;
                pow_hash = meta.pow_hash;
                total_difficulty = meta.total_difficulty;
                is_canonical = meta.is_canonical;
              })))

  abbrev pub block_from : Raw → Raw → StorageResult (Option Block)
  block_from h b =
      and_found (do bytes ← database_result h; decoded codecs.header bytes)
        (λ header.
          and_found (do bytes ← database_result b; decoded codecs.body bytes)
            (λ body. good (some (record { header = header; body = body }))))

  abbrev pub td_from : Raw → StorageResult (Option ℕ)
  td_from m =
      and_found (do bytes ← database_result m; decoded codecs.meta bytes)
        (λ meta. good (some meta.total_difficulty))

  abbrev pub hash_from : Raw → StorageResult (Option Hash256)
  hash_from r = and_found (database_result r) hash_of

  abbrev pub height_from : Raw → StorageResult (Option ℕ)
  height_from r = and_found (database_result r) height_of

  module _ (R : Rocks) where
    pub get_stored_block-from :
        (db : R.Db) (hash : Hash256)
        → get_stored_block codecs hex sha3 R db hash
          ≡ stored_from
              (R.get_cf db headers_cf hash)
              (R.get_cf db bodies_cf hash)
              (R.get_cf db meta_cf (meta_key hex hash))
    unfolding get_stored_block get_block get_header get_body get_block_meta
    get_stored_block-from db hash = refl

    pub get_block-from :
        (db : R.Db) (hash : Hash256)
        → get_block codecs hex sha3 R db hash
          ≡ block_from (R.get_cf db headers_cf hash) (R.get_cf db bodies_cf hash)
    unfolding get_block get_header get_body
    get_block-from db hash = refl

    pub get_total_difficulty-from :
        (db : R.Db) (hash : Hash256)
        → get_total_difficulty codecs hex sha3 R db hash
          ≡ td_from (R.get_cf db meta_cf (meta_key hex hash))
    unfolding get_total_difficulty get_block_meta
    get_total_difficulty-from db hash = refl
