-- ===== src/Storage/Chain/Refines.antt =====
-- Each write of the chain store is a write of the abstract store.
-- The code is crates/frychain-storage/src/chain.rs.
use fry_chain.Results.{good}
use fry_chain.Words.{u64_mod}
use fry_chain.Core.Hash.{Hash256}
use fry_chain.Core.Amount.{BlockHeight}
use fry_chain.Core.Block.{StoredBlock, header_hash}
use fry_chain.Storage.{Rocks, IsLawful, headers_cf, bodies_cf, height_to_hash_cf, meta_cf}
use fry_chain.Storage.Chain.{
  Codecs, get_hash_by_height, get_latest_height, meta_key, height_key, latest_height_key, put_block,
}
use fry_chain.Storage.Chain.Reads.{Raw, hash_from, height_from}
use fry_chain.Storage.Chain.Spec.{ChainSpec, spec_put}
use fry_chain.Storage.Chain.Written.{get-put_block}
use fry_chain.Results.{bind_good}
use fry_chain.Words.Bytes.{be_bytes, from_be-be_bytes}
use fry_chain.Core.Transaction.{TransactionReceipt}
use fry_chain.Storage.{put, receipts_cf, transactions_cf}
use fry_chain.Storage.Batches.{database_result_good}
use fry_chain.Storage.Chain.{
  block_ops, encoded, get_header, get_body, get_block_meta, get_tx_location, get_receipt,
  put_receipt, set_latest_height, meta_of,
}
use fry_chain.Storage.Chain.Spec.{AreAllCodecs, spec_set_latest, spec_put_receipt}
use fry_chain.Storage.Chain.Holds.{Holds}
use fry_chain.Storage.Chain.Values.{value_from, value_written, part_written, put_locations_lem}
use fry_chain.Storage.Chain.Written.{good_or-some, get_cf_transactions-put_block}
use mathlib.Core.Option
use fry_chain.Prelude.{
  String, ℕ, ◌<◌, Bool, true, false, ◌&&◌, ◌≡◌, refl, ap, ◌∙◌, Option, some, List, same, nat_eq,
  list_eq, string_eq, if◌then◌else◌, length, ◌==◌,
}
use fry_chain.Storage.Chain.Effects.{
  headers_after, bodies_after, meta_after, heights_after, locations_after, receipts_after,
  same-meta_key, same_height,
}

module _ (codecs : Codecs) (hex : List ℕ → List ℕ) (sha3 : List ℕ → Hash256) where
  pick_hash :
      (c : Bool) (r r' : Raw) (new old : Option Hash256)
      → hash_from codecs hex sha3 r ≡ good new
      → hash_from codecs hex sha3 r' ≡ good old
      → hash_from codecs hex sha3 (if c then r else r') ≡ good (if c then new else old)
  pick_hash true r r' new old e f = e
  pick_hash false r r' new old e f = f

  pub hash_from_written :
      (hash : Hash256)
      → length hash ≡ 32
      → hash_from codecs hex sha3 (good (some hash)) ≡ good (some hash)
  hash_from_written hash e = rw e refl

  height_from_written :
      (height : BlockHeight)
      → height < u64_mod
      → height_from codecs hex sha3 (good (some (be_bytes 8 height))) ≡ good (some height)
  height_from_written height fits = ap (λ n. good (some n)) (from_be-be_bytes 8 height fits)

module _ (R : Rocks) (lawful : IsLawful R) (hex : List ℕ → List ℕ)
    (hex_injective : (a b : List ℕ) → hex a ≡ hex b → a ≡ b) (codecs : Codecs)
    (are : AreAllCodecs codecs) (sha3 : List ℕ → Hash256)
    (digest_width : (x : List ℕ) → length (sha3 x) ≡ 32) where
  module _ (db db' : R.Db) (spec : ChainSpec) (holds : Holds codecs hex sha3 R db spec) where
    module _ (stored : StoredBlock) (e : put_block codecs hex sha3 R db stored ≡ good db') where
      put_headers :
          (k : Hash256)
          → get_header codecs hex sha3 R db' k
            ≡ good (
                Option.map
                  (λ (s : StoredBlock). s.block.header)
                  ((spec_put sha3 stored spec).blocks k))
      unfolding get_header
      put_headers k =
          let (hb, bb, mb, h, b, m, reads) =
            get-put_block codecs hex sha3 R lawful db db' stored e in
          let old = R.get_cf db headers_cf k in
          ap (value_from codecs.header)
            (reads headers_cf k refl ∙ headers_after codecs hex sha3 stored hb bb mb k old)
          ∙ part_written codecs.header are.chain.header (λ (s : StoredBlock). s.block.header)
              (same (header_hash sha3 stored.block.header) k) old hb stored (spec.blocks k) h
              (holds.headers k)

      put_bodies :
          (k : Hash256)
          → get_body codecs hex sha3 R db' k
            ≡ good (
                Option.map
                  (λ (s : StoredBlock). s.block.body)
                  ((spec_put sha3 stored spec).blocks k))
      unfolding get_body
      put_bodies k =
          let (hb, bb, mb, h, b, m, reads) =
            get-put_block codecs hex sha3 R lawful db db' stored e in
          let old = R.get_cf db bodies_cf k in
          ap (value_from codecs.body)
            (reads bodies_cf k refl ∙ bodies_after codecs hex sha3 stored hb bb mb k old)
          ∙ part_written codecs.body are.chain.body (λ (s : StoredBlock). s.block.body)
              (same (header_hash sha3 stored.block.header) k) old bb stored (spec.blocks k) b
              (holds.bodies k)

      put_metas :
          (k : Hash256)
          → get_block_meta codecs hex sha3 R db' k
            ≡ good (Option.map (meta_of codecs hex sha3) ((spec_put sha3 stored spec).blocks k))
      unfolding get_block_meta
      put_metas k =
          let (hb, bb, mb, h, b, m, reads) =
            get-put_block codecs hex sha3 R lawful db db' stored e in
          let hash = header_hash sha3 stored.block.header in
          let old = R.get_cf db meta_cf (meta_key hex k) in
          ap (value_from codecs.meta) (
            reads meta_cf (meta_key hex k) refl
            ∙ meta_after codecs hex sha3 stored hb bb mb (meta_key hex k) old
            ∙ ap (λ t. if t then good (some mb) else old) (same-meta_key hex hex_injective hash k))
          ∙ part_written codecs.meta are.chain.meta (meta_of codecs hex sha3) (same hash k) old mb
              stored (spec.blocks k) m (holds.metas k)

      put_heights :
          stored.block.header.height < u64_mod
          → (n : BlockHeight) → n < u64_mod
          → get_hash_by_height codecs hex sha3 R db' n
            ≡ good ((spec_put sha3 stored spec).heights n)
      unfolding get_hash_by_height header_hash
      put_heights fits n hn =
          let (hb, bb, mb, h, b, m, reads) =
            get-put_block codecs hex sha3 R lawful db db' stored e in
          let height = stored.block.header.height in
          let hash = header_hash sha3 stored.block.header in
          let old = R.get_cf db height_to_hash_cf (height_key n) in
          let raw : R.get_cf db' height_to_hash_cf (height_key n)
              ≡ (if stored.is_canonical && height == n then good (some hash) else old) =
            reads height_to_hash_cf (height_key n) refl
            ∙ heights_after codecs hex sha3 stored hb bb mb (height_key n) old
            ∙ ap (λ t. if stored.is_canonical && t then good (some hash) else old)
                (same_height height n fits hn) in
          ap (hash_from codecs hex sha3) raw
          ∙ pick_hash codecs hex sha3 (stored.is_canonical && height == n) _ _ (some hash)
              (spec.heights n) (hash_from_written codecs hex sha3 hash (digest_width _))
              (holds.heights n hn)

      put_tx_locations :
          (k : Hash256)
          → get_tx_location codecs hex sha3 R db' k ≡ good ((spec_put sha3 stored spec).locations k)
      unfolding get_tx_location
      put_tx_locations k =
          let (hb, bb, mb, batch, l, reads) =
            get_cf_transactions-put_block codecs hex sha3 R lawful db db' stored e in
          let old = R.get_cf db transactions_cf k in
          ap (value_from codecs.location) (reads transactions_cf k)
          ∙ put_locations_lem codecs hex sha3 are.location (header_hash sha3 stored.block.header)
              stored.block.header.height k old stored.block.body.transactions 0
              (block_ops codecs hex sha3 stored hb bb mb) batch (spec.locations k) l
              (ap (value_from codecs.location)
                  (locations_after codecs hex sha3 stored hb bb mb k old)
                ∙ holds.locations k)

      -- A `put_block` that succeeds, of a block whose height fits 64 bits.
      pub put_block_refines :
          stored.block.header.height < u64_mod
          → Holds codecs hex sha3 R db' (spec_put sha3 stored spec)
      unfolding get_receipt get_latest_height
      put_block_refines fits =
          let (hb, bb, mb, h, b, m, reads) =
            get-put_block codecs hex sha3 R lawful db db' stored e in
          record {
            headers = put_headers;
            bodies = put_bodies;
            metas = put_metas;
            heights = put_heights fits;
            locations = put_tx_locations;
            receipts = λ k.
                ap (value_from codecs.receipt) (
                  reads receipts_cf k refl
                  ∙ receipts_after codecs hex sha3 stored hb bb mb k (R.get_cf db receipts_cf k))
                ∙ holds.receipts k;
            latest =
                ap (height_from codecs hex sha3) (
                  reads meta_cf latest_height_key refl
                  ∙ meta_after codecs hex sha3 stored hb bb mb latest_height_key
                      (R.get_cf db meta_cf latest_height_key))
                ∙ holds.latest;
          }

    -- Writes to one key that the reads of others do not see.
    pub set_latest_height_refines :
        (height : BlockHeight)
        → height < u64_mod
        → set_latest_height codecs hex sha3 R db height ≡ good db'
        → Holds codecs hex sha3 R db' (spec_set_latest height spec)
    unfolding set_latest_height put get_header get_body get_block_meta get_hash_by_height
        get_tx_location get_receipt get_latest_height
    set_latest_height_refines height fits e =
        let bytes = be_bytes 8 height in
        let written = database_result_good (R.put_cf db meta_cf latest_height_key bytes) db' e in
        let reads = λ (name : String) (key : List ℕ).
          lawful.get-put db db' meta_cf latest_height_key bytes name key written in
        record {
          headers = λ k. ap (value_from codecs.header) (reads headers_cf k) ∙ holds.headers k;
          bodies = λ k. ap (value_from codecs.body) (reads bodies_cf k) ∙ holds.bodies k;
          metas = λ k. ap (value_from codecs.meta) (reads meta_cf (meta_key hex k)) ∙ holds.metas k;
          heights = λ n hn.
              ap (hash_from codecs hex sha3) (reads height_to_hash_cf (height_key n))
              ∙ holds.heights n hn;
          locations =
              λ k. ap (value_from codecs.location) (reads transactions_cf k) ∙ holds.locations k;
          receipts = λ k. ap (value_from codecs.receipt) (reads receipts_cf k) ∙ holds.receipts k;
          latest =
              ap (height_from codecs hex sha3) (reads meta_cf latest_height_key)
              ∙ height_from_written codecs hex sha3 height fits;
        }

    pub put_receipt_refines :
        (tx_hash : Hash256) (receipt : TransactionReceipt)
        → put_receipt codecs hex sha3 R db tx_hash receipt ≡ good db'
        → Holds codecs hex sha3 R db' (spec_put_receipt tx_hash receipt spec)
    unfolding put_receipt put get_header get_body get_block_meta get_hash_by_height get_tx_location
        get_receipt get_latest_height
    put_receipt_refines tx_hash receipt e =
        let (bytes, b, w) = bind_good (encoded codecs.receipt receipt) _ db' e in
        let written = database_result_good (R.put_cf db receipts_cf tx_hash bytes) db' w in
        let reads = λ (name : String) (key : List ℕ).
          lawful.get-put db db' receipts_cf tx_hash bytes name key written in
        record {
          headers = λ k. ap (value_from codecs.header) (reads headers_cf k) ∙ holds.headers k;
          bodies = λ k. ap (value_from codecs.body) (reads bodies_cf k) ∙ holds.bodies k;
          metas = λ k. ap (value_from codecs.meta) (reads meta_cf (meta_key hex k)) ∙ holds.metas k;
          heights = λ n hn.
              ap (hash_from codecs hex sha3) (reads height_to_hash_cf (height_key n))
              ∙ holds.heights n hn;
          locations =
              λ k. ap (value_from codecs.location) (reads transactions_cf k) ∙ holds.locations k;
          receipts = λ k.
              ap (value_from codecs.receipt) (reads receipts_cf k)
              ∙ value_written codecs.receipt are.receipt (same tx_hash k)
                  (R.get_cf db receipts_cf k) bytes receipt (spec.receipts k)
                  (good_or-some _ _ bytes b) (holds.receipts k);
          latest =
              ap (height_from codecs hex sha3) (reads meta_cf latest_height_key) ∙ holds.latest;
        }
