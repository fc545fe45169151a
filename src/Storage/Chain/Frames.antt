-- ===== src/Storage/Chain/Frames.antt =====
-- What `put_block` and `set_latest_height` leave as it was.
-- The code is crates/frychain-storage/src/chain.rs.
use fry_chain.Storage.Chain.{get_hash_by_height, height_key}
use fry_chain.Storage.Chain.Refines.{hash_from_written}
use fry_chain.Results.{good, bad, ◌>>=◌}
use fry_chain.Core.Hash.{Hash256}
use fry_chain.Core.Amount.{BlockHeight}
use fry_chain.Core.Block.{Block, StoredBlock, header_hash}
use fry_chain.Storage.{
  Rocks, IsLawful, headers_cf, bodies_cf, meta_cf, put, contains, get, database_result, is_some,
}
use fry_chain.Storage.Batches.{database_result_good}
use fry_chain.Storage.Chain.{
  Codecs, get_stored_block, get_block, get_total_difficulty, has_block, meta_key, latest_height_key,
  put_block, set_latest_height,
}
use fry_chain.Storage.Chain.Reads.{
  Raw, stored_from, block_from, td_from, get_stored_block-from, get_block-from,
  get_total_difficulty-from, hash_from,
}
use fry_chain.Storage.Chain.Spec.{AreCodecs}
use fry_chain.Storage.Chain.Written.{get-put_block}
use fry_chain.Prelude.{
  ℕ, ◌≡◌, refl, ap, sym, ◌∙◌, false, none, some, List, same, nat_eq, list_eq, string_eq,
  if◌then◌else◌, ◌≢◌, true, ◌&&◌, length, same_refl,
}
use fry_chain.Storage.{good_or_false, height_to_hash_cf}
use fry_chain.Storage.Chain.Effects.{
  headers_after, heights_after, bodies_after, meta_after, same-meta_key, stored_from_written,
}

module _ (codecs : Codecs) (hex : List ℕ → List ℕ) (sha3 : List ℕ → Hash256) (R : Rocks) where
  -- The block at a hash reads the same in both databases.
  pub record SameBlock (db db' : R.Db) (k : Hash256) : Type 0 where
    pub stored : get_stored_block codecs hex sha3 R db' k ≡ get_stored_block codecs hex sha3 R db k
    pub block : get_block codecs hex sha3 R db' k ≡ get_block codecs hex sha3 R db k
    pub td :
        get_total_difficulty codecs hex sha3 R db' k ≡ get_total_difficulty codecs hex sha3 R db k

  same_reads :
      (db db' : R.Db) (k : Hash256)
      → R.get_cf db' headers_cf k ≡ R.get_cf db headers_cf k
      → R.get_cf db' bodies_cf k ≡ R.get_cf db bodies_cf k
      → R.get_cf db' meta_cf (meta_key hex k) ≡ R.get_cf db meta_cf (meta_key hex k)
      → SameBlock db db' k
  same_reads db db' k h b m = record {
    stored =
        get_stored_block-from codecs hex sha3 R db' k
        ∙ (λ i. stored_from codecs hex sha3 (h i) (b i) (m i))
        ∙ sym (get_stored_block-from codecs hex sha3 R db k);
    block =
        get_block-from codecs hex sha3 R db' k
        ∙ (λ i. block_from codecs hex sha3 (h i) (b i))
        ∙ sym (get_block-from codecs hex sha3 R db k);
    td =
        get_total_difficulty-from codecs hex sha3 R db' k
        ∙ ap (td_from codecs hex sha3) m
        ∙ sym (get_total_difficulty-from codecs hex sha3 R db k);
  }

  module _ (lawful : IsLawful R) (hex_injective : (a b : List ℕ) → hex a ≡ hex b → a ≡ b) where
    pub put_block-SameBlock :
        (db db' : R.Db) (stored : StoredBlock) (k : Hash256)
        → put_block codecs hex sha3 R db stored ≡ good db'
        → same (header_hash sha3 stored.block.header) k ≡ false
        → SameBlock db db' k
    put_block-SameBlock db db' stored k e other =
        let (hb, bb, mb, h, b, m, reads) = get-put_block codecs hex sha3 R lawful db db' stored e in
        let hash = header_hash sha3 stored.block.header in
        let old_meta = R.get_cf db meta_cf (meta_key hex k) in
        same_reads db db' k
          (reads headers_cf k refl
            ∙ headers_after codecs hex sha3 stored hb bb mb k (R.get_cf db headers_cf k)
            ∙ ap (λ c. if c then good (some hb) else R.get_cf db headers_cf k) other)
          (reads bodies_cf k refl
            ∙ bodies_after codecs hex sha3 stored hb bb mb k (R.get_cf db bodies_cf k)
            ∙ ap (λ c. if c then good (some bb) else R.get_cf db bodies_cf k) other)
          (reads meta_cf (meta_key hex k) refl
            ∙ meta_after codecs hex sha3 stored hb bb mb (meta_key hex k) old_meta
            ∙ ap (λ c. if c then good (some mb) else old_meta)
                (same-meta_key hex hex_injective hash k ∙ other))

    -- The block that is put is the one that is read.
    pub get_stored_block-put_block :
        AreCodecs codecs
        → (db db' : R.Db) (stored : StoredBlock) (k : Hash256)
        → put_block codecs hex sha3 R db stored ≡ good db'
        → same (header_hash sha3 stored.block.header) k ≡ true
        → get_stored_block codecs hex sha3 R db' k ≡ good (some stored)
    get_stored_block-put_block are db db' stored k e found =
        let (hb, bb, mb, h, b, m, reads) = get-put_block codecs hex sha3 R lawful db db' stored e in
        let hash = header_hash sha3 stored.block.header in
        let old_meta = R.get_cf db meta_cf (meta_key hex k) in
        let headers : R.get_cf db' headers_cf k ≡ good (some hb) =
          reads headers_cf k refl
          ∙ headers_after codecs hex sha3 stored hb bb mb k (R.get_cf db headers_cf k)
          ∙ ap (λ c. if c then good (some hb) else R.get_cf db headers_cf k) found in
        let bodies : R.get_cf db' bodies_cf k ≡ good (some bb) =
          reads bodies_cf k refl
          ∙ bodies_after codecs hex sha3 stored hb bb mb k (R.get_cf db bodies_cf k)
          ∙ ap (λ c. if c then good (some bb) else R.get_cf db bodies_cf k) found in
        let metas : R.get_cf db' meta_cf (meta_key hex k) ≡ good (some mb) =
          reads meta_cf (meta_key hex k) refl
          ∙ meta_after codecs hex sha3 stored hb bb mb (meta_key hex k) old_meta
          ∙ ap (λ c. if c then good (some mb) else old_meta)
              (same-meta_key hex hex_injective hash k ∙ found) in
        get_stored_block-from codecs hex sha3 R db' k
        ∙ (λ i. stored_from codecs hex sha3 (headers i) (bodies i) (metas i))
        ∙ stored_from_written hex hex_injective codecs are sha3 stored hb bb mb h b m

    pub set_latest_height-SameBlock :
        (db db' : R.Db) (height : BlockHeight) (k : Hash256)
        → set_latest_height codecs hex sha3 R db height ≡ good db'
        → SameBlock db db' k
    unfolding set_latest_height put
    set_latest_height-SameBlock db db' height k e =
        let written = database_result_good (R.put_cf db meta_cf latest_height_key _) db' e in
        same_reads db db' k (lawful.get-put db db' meta_cf latest_height_key _ headers_cf k written)
          (lawful.get-put db db' meta_cf latest_height_key _ bodies_cf k written)
          (lawful.get-put db db' meta_cf latest_height_key _ meta_cf (meta_key hex k) written)

  module _ (lawful : IsLawful R) where
    -- A canonical block that is put is the one of its height.
    pub get_hash_by_height-put_block :
        (db db' : R.Db) (stored : StoredBlock)
        → put_block codecs hex sha3 R db stored ≡ good db'
        → stored.is_canonical ≡ true
        → length (header_hash sha3 stored.block.header) ≡ 32
        → get_hash_by_height codecs hex sha3 R db' stored.block.header.height
          ≡ good (some (header_hash sha3 stored.block.header))
    unfolding get_hash_by_height
    get_hash_by_height-put_block db db' stored e canonical width =
        let (hb, bb, mb, h, b, m, reads) = get-put_block codecs hex sha3 R lawful db db' stored e in
        let hash = header_hash sha3 stored.block.header in
        let key = height_key stored.block.header.height in
        let old = R.get_cf db height_to_hash_cf key in
        let raw : R.get_cf db' height_to_hash_cf key ≡ good (some hash) =
          reads height_to_hash_cf key refl
          ∙ heights_after codecs hex sha3 stored hb bb mb key old
          ∙ ap (λ c. if c && same key key then good (some hash) else old) canonical
          ∙ ap (λ c. if c then good (some hash) else old) (same_refl key) in
        ap (hash_from codecs hex sha3) raw ∙ hash_from_written codecs hex sha3 hash width

  absent_from :
      (h b : Raw) (block : Block)
      → good_or_false (do value ← database_result h; good (is_some R value)) ≡ false
      → block_from codecs hex sha3 h b ≢ good (some block)
  absent_from (good none) b block absent found = cc
  absent_from (good (some bytes)) b block absent found = cc
  absent_from (bad e) b block absent found = cc

  -- A hash under which no header is found has no block either.
  pub has_block-false :
      (db : R.Db) (k : Hash256) (block : Block)
      → good_or_false (has_block codecs hex sha3 R db k) ≡ false
      → get_block codecs hex sha3 R db k ≢ good (some block)
  unfolding has_block contains get
  has_block-false db k block absent found =
      absent_from (R.get_cf db headers_cf k) (R.get_cf db bodies_cf k) block absent
        (sym (get_block-from codecs hex sha3 R db k) ∙ found)
