-- ===== src/Storage/Chain/Values.antt =====
-- What a read of a value finds after a write: the value that was written, or what was there.
-- The code is crates/frychain-storage/src/chain.rs.
use fry_chain.Results.{good, bind_good, ◌>>=◌}
use fry_chain.Core.Hash.{Hash256}
use fry_chain.Core.Amount.{BlockHeight}
use fry_chain.Core.Transaction.{SignedTransaction, signed_hash}
use fry_chain.Storage.{
  StorageResult, BatchOp, batch_put, database_result, replayed, write_op, transactions_cf, put_type,
}
use fry_chain.Storage.Batches.{replayed-append, map-append}
use fry_chain.Storage.Chain.{Codec, Codecs, TxLocation, decoded, encoded, put_locations}
use fry_chain.Storage.Chain.Reads.{Raw}
use fry_chain.Storage.Chain.Spec.{IsCodec, spec_locations}
use fry_chain.Storage.Chain.Written.{good_or-some}
use mathlib.Core.Option
use fry_chain.Prelude.{
  ℕ, ◌+◌, ◌%◌, ◌^◌, ◌≡◌, refl, ap, ◌∙◌, subst, Bool, true, false, Option, some, List, [], ◌∷◌, ◌++◌,
  map, if◌then◌else◌, same, nat_eq, list_eq, string_eq,
}
use fry_chain.Core.Address.{address_eq}

abbrev pub value_from {ℓ} : {A : Type ℓ} → Codec A → Raw → StorageResult (Option A)
value_from c raw = do bytes ← database_result raw; decoded c bytes

pub value_written {ℓ} :
    {A : Type ℓ} (c : Codec A)
    → IsCodec c
    → (t : Bool) (raw : Raw) (bytes : List ℕ) (new : A) (old : Option A)
    → c.serialize new ≡ some bytes
    → value_from c raw ≡ good old
    → value_from c (if t then good (some bytes) else raw) ≡ good (if t then some new else old)
value_written c is true raw bytes new old e f = rw (is.round new bytes e) refl
value_written c is false raw bytes new old e f = f

map_if {ℓ κ} :
    {A : Type ℓ} {B : Type κ} (f : A → B) (t : Bool) (new : A) (old : Option A)
    → (if t then some (f new) else Option.map f old) ≡ Option.map f (if t then some new else old)
map_if f true new old = refl
map_if f false new old = refl

-- The same for a part of what the abstract store holds.
pub part_written {ℓ κ} :
    {A : Type ℓ} {B : Type κ} (c : Codec B)
    → IsCodec c
    → (f : A → B) (t : Bool) (raw : Raw) (bytes : List ℕ) (new : A) (old : Option A)
    → c.serialize (f new) ≡ some bytes
    → value_from c raw ≡ good (Option.map f old)
    → value_from c (if t then good (some bytes) else raw)
      ≡ good (Option.map f (if t then some new else old))
part_written c is f t raw bytes new old e h =
    value_written c is t raw bytes (f new) (Option.map f old) e h
    ∙ ap (λ o. good o) (map_if f t new old)

module _ (codecs : Codecs) (hex : List ℕ → List ℕ) (sha3 : List ℕ → Hash256)
    (is : IsCodec codecs.location) (hash : Hash256) (height : BlockHeight) (k : Hash256)
    (seen : Raw) where
  -- The loop over the transactions leaves the last location of a hash.
  pub put_locations_lem :
      (txs : List SignedTransaction) (idx : ℕ) (batch batch' : List BatchOp)
      (old : Option TxLocation)
      → put_locations codecs hex sha3 batch hash height idx txs ≡ good batch'
      → value_from codecs.location (replayed (map write_op batch) transactions_cf k seen) ≡ good old
      → value_from codecs.location (replayed (map write_op batch') transactions_cf k seen)
        ≡ good (spec_locations sha3 hash height idx txs k old)
  unfolding put_locations batch_put
  put_locations_lem [] idx batch batch' old e h =
      let same_batch : batch ≡ batch' = cc in
      subst
        (λ b.
          value_from codecs.location (replayed (map write_op b) transactions_cf k seen) ≡ good old)
        same_batch h
  put_locations_lem (tx ∷ txs) idx batch batch' old e h =
      let loc : TxLocation = record {
        block_hash = hash;
        block_height = height;
        tx_index = idx % 2 ^ 32;
      } in
      let (bytes, b, rest) = bind_good (encoded codecs.location loc) _ batch' e in
      let op : BatchOp = record {
        cf_name = transactions_cf;
        op_type = put_type;
        key = signed_hash sha3 tx;
        value = some bytes;
      } in
      let found = same (signed_hash sha3 tx) k in
      let earlier = replayed (map write_op batch) transactions_cf k seen in
      let after : replayed (map write_op (batch ++ op ∷ [])) transactions_cf k seen
          ≡ (if found then good (some bytes) else earlier) =
        ap (λ o. replayed o transactions_cf k seen) (map-append write_op batch (op ∷ []))
        ∙ replayed-append (map write_op batch) (map write_op (op ∷ [])) transactions_cf k seen in
      put_locations_lem txs (idx + 1) (batch ++ op ∷ []) batch' (if found then some loc else old)
        rest
        (ap (value_from codecs.location) after
          ∙ value_written codecs.location is found earlier bytes loc old (good_or-some _ _ bytes b)
              h)
