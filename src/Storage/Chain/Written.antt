-- ===== src/Storage/Chain/Written.antt =====
-- What `put_block` writes, key by key.
-- The code is crates/frychain-storage/src/chain.rs.
use fry_chain.Results.{good, bind_good, good_or}
use fry_chain.Core.Hash.{Hash256}
use fry_chain.Core.Block.{StoredBlock, header_hash}
use fry_chain.Core.Transaction.{SignedTransaction, signed_hash}
use fry_chain.Storage.{
  Rocks, IsLawful, BatchOp, batch_put, replayed, write_op, transactions_cf, put_type,
}
use fry_chain.Storage.Batches.{replayed-append, map-append, replayed_elsewhere, get-write_batch}
use fry_chain.Storage.Chain.{Codecs, encoded, put_locations, put_block, block_ops, meta_of}
use fry_chain.Prelude.{
  ℕ, ◌+◌, false, ◌≡◌, refl, ap, sym, ◌∙◌, String, Option, none, some, List, [], ◌∷◌, ◌++◌, map,
  append_assoc, All, same, nat_eq, list_eq, string_eq, append-nil,
}

-- The operations that `put_locations` appends are all on the transactions.
abbrev Appends : List BatchOp → List BatchOp → Type 0
Appends batch batch' =
    (more : List BatchOp) × (batch' ≡ batch ++ more) × All (λ op. op.cf_name ≡ transactions_cf) more

pub good_or-some {ℓ κ} :
    {E : Type ℓ} {A : Type κ} (o : Option A) (x : E) (a : A) → good_or o x ≡ good a → o ≡ some a
good_or-some none x a e = cc
good_or-some (some b) x a e = cc

module _ (codecs : Codecs) (hex : List ℕ → List ℕ) (sha3 : List ℕ → Hash256) where
  put_locations-Appends :
      (txs : List SignedTransaction) (batch batch' : List BatchOp) (hash : Hash256) (height idx : ℕ)
      → put_locations codecs hex sha3 batch hash height idx txs ≡ good batch'
      → Appends batch batch'
  unfolding put_locations batch_put
  put_locations-Appends [] batch batch' hash height idx e =
      let same_batch : batch ≡ batch' = cc in ([], sym same_batch ∙ sym (append-nil batch), tt)
  put_locations-Appends (tx ∷ txs) batch batch' hash height idx e =
      let (bytes, b, rest) = bind_good (encoded codecs.location _) _ batch' e in
      let op : BatchOp = record {
        cf_name = transactions_cf;
        op_type = put_type;
        key = signed_hash sha3 tx;
        value = some bytes;
      } in
      let (more, appended, all) =
        put_locations-Appends txs (batch ++ op ∷ []) batch' hash height (idx + 1) rest in
      (op ∷ more, appended ∙ append_assoc batch (op ∷ []) more, (refl, all))

  module _ (R : Rocks) (lawful : IsLawful R) where
    -- What a reader of a family other than the transactions' sees after `put_block`.
    pub get-put_block :
        (db db' : R.Db) (stored : StoredBlock)
        → put_block codecs hex sha3 R db stored ≡ good db'
        → (header_bytes body_bytes meta_bytes : List ℕ) × (codecs.header.serialize
              stored.block.header
            ≡ some header_bytes)
          × (codecs.body.serialize stored.block.body ≡ some body_bytes)
          × (codecs.meta.serialize (meta_of codecs hex sha3 stored) ≡ some meta_bytes)
          × ((name : String) (key : List ℕ)
              → same transactions_cf name ≡ false
              → R.get_cf db' name key
                ≡ replayed
                    (map write_op
                      (block_ops codecs hex sha3 stored header_bytes body_bytes meta_bytes))
                    name
                    key
                    (R.get_cf db name key))
    unfolding put_block
    get-put_block db db' stored e =
        let (hb, h, e1) = bind_good (encoded codecs.header stored.block.header) _ db' e in
        let (bb, b, e2) = bind_good (encoded codecs.body stored.block.body) _ db' e1 in
        let (mb, m, e3) =
          bind_good (encoded codecs.meta (meta_of codecs hex sha3 stored)) _ db' e2 in
        let ops = block_ops codecs hex sha3 stored hb bb mb in
        let (batch, l, w) =
          bind_good
            (put_locations codecs hex sha3 ops (header_hash sha3 stored.block.header)
              stored.block.header.height 0 stored.block.body.transactions)
            _ db' e3 in
        let (more, appended, all) =
          put_locations-Appends stored.block.body.transactions ops batch _ _ 0 l in
        (
          hb,
          bb,
          mb,
          good_or-some _ _ hb h,
          good_or-some _ _ bb b,
          good_or-some _ _ mb m,
          λ name key other.
              get-write_batch R lawful db db' batch name key w
              ∙ ap (λ o. replayed (map write_op o) name key (R.get_cf db name key)) appended
              ∙ ap (λ o. replayed o name key (R.get_cf db name key)) (map-append write_op ops more)
              ∙ replayed-append (map write_op ops) (map write_op more) name key _
              ∙ replayed_elsewhere transactions_cf name other more all key _,
        )

    -- The whole batch of `put_block`, as seen at the transactions.
    pub get_cf_transactions-put_block :
        (db db' : R.Db) (stored : StoredBlock)
        → put_block codecs hex sha3 R db stored ≡ good db'
        → (header_bytes body_bytes meta_bytes : List ℕ) × (batch : List BatchOp) × (put_locations
              codecs hex sha3
              (block_ops codecs hex sha3 stored header_bytes body_bytes meta_bytes)
              (header_hash sha3 stored.block.header)
              stored.block.header.height
              0
              stored.block.body.transactions
            ≡ good batch)
          × ((name : String) (key : List ℕ)
              → R.get_cf db' name key
                ≡ replayed (map write_op batch) name key (R.get_cf db name key))
    unfolding put_block
    get_cf_transactions-put_block db db' stored e =
        let (hb, h, e1) = bind_good (encoded codecs.header stored.block.header) _ db' e in
        let (bb, b, e2) = bind_good (encoded codecs.body stored.block.body) _ db' e1 in
        let (mb, m, e3) =
          bind_good (encoded codecs.meta (meta_of codecs hex sha3 stored)) _ db' e2 in
        let (batch, l, w) =
          bind_good
            (put_locations codecs hex sha3 (block_ops codecs hex sha3 stored hb bb mb)
              (header_hash sha3 stored.block.header) stored.block.header.height 0
              stored.block.body.transactions)
            _ db' e3 in
        (hb, bb, mb, batch, l, λ name key. get-write_batch R lawful db db' batch name key w)
