-- ===== src/Storage/Chain/Runs.antt =====
-- Any sequence of successful calls of the chain store reads as the same calls on the abstract store.
-- The code is crates/frychain-storage/src/chain.rs.
use fry_chain.Results.{good, ◌>>=◌, bind_good}
use fry_chain.Words.{u64_mod}
use fry_chain.Core.Hash.{Hash256}
use fry_chain.Core.Amount.{BlockHeight}
use fry_chain.Core.Block.{StoredBlock}
use fry_chain.Storage.{Rocks, IsLawful, StorageResult}
use fry_chain.Storage.Chain.{Codecs, put_block, set_latest_height}
use fry_chain.Storage.Chain.Spec.{ChainSpec, spec_put, spec_set_latest, Represents}
use fry_chain.Storage.Chain.Refines.{put_block_refines}
use fry_chain.Core.Transaction.{TransactionReceipt}
use fry_chain.Storage.Chain.{put_receipt}
use fry_chain.Storage.Chain.Spec.{spec_put_receipt, AreAllCodecs}
use fry_chain.Storage.Chain.Holds.{Holds, Represents-Holds, Holds-Represents}
use fry_chain.Storage.Chain.Refines.{put_receipt_refines, set_latest_height_refines}
use fry_chain.Prelude.{ℕ, ◌<◌, ◌≡◌, List, [], ◌∷◌, All, length, subst}

-- The calls that change the store.
pub data StoreOp : Type 0 where
  put_block_op : StoredBlock → StoreOp
  put_receipt_op : Hash256 → TransactionReceipt → StoreOp
  set_latest_op : BlockHeight → StoreOp

-- Heights are 64-bit integers.
abbrev pub HeightFits : StoreOp → Type 0
HeightFits (put_block_op stored) = stored.block.header.height < u64_mod
HeightFits (put_receipt_op tx_hash receipt) = Unit
HeightFits (set_latest_op height) = height < u64_mod

abbrev pub spec_run : (List ℕ → Hash256) → List StoreOp → ChainSpec → ChainSpec
spec_run sha3 [] spec = spec
spec_run sha3 (put_block_op stored ∷ ops) spec = spec_run sha3 ops (spec_put sha3 stored spec)
spec_run sha3 (put_receipt_op tx_hash receipt ∷ ops) spec =
    spec_run sha3 ops (spec_put_receipt tx_hash receipt spec)
spec_run sha3 (set_latest_op height ∷ ops) spec = spec_run sha3 ops (spec_set_latest height spec)

module _ (R : Rocks) (hex : List ℕ → List ℕ) (codecs : Codecs) (sha3 : List ℕ → Hash256) where
  -- The calls one after the other, up to the first error.
  abbrev pub store_run : List StoreOp → R.Db → StorageResult R.Db
  store_run [] db = good db
  store_run (put_block_op stored ∷ ops) db = do
    next ← put_block codecs hex sha3 R db stored
    store_run ops next
  store_run (put_receipt_op tx_hash receipt ∷ ops) db = do
    next ← put_receipt codecs hex sha3 R db tx_hash receipt
    store_run ops next
  store_run (set_latest_op height ∷ ops) db = do
    next ← set_latest_height codecs hex sha3 R db height
    store_run ops next

module _ (R : Rocks) (lawful : IsLawful R) (hex : List ℕ → List ℕ)
    (hex_injective : (a b : List ℕ) → hex a ≡ hex b → a ≡ b) (codecs : Codecs)
    (are : AreAllCodecs codecs) (sha3 : List ℕ → Hash256)
    (digest_width : (x : List ℕ) → length (sha3 x) ≡ 32) where
  run-Holds :
      (ops : List StoreOp) (db db' : R.Db) (spec : ChainSpec)
      → All HeightFits ops
      → Holds codecs hex sha3 R db spec
      → store_run R hex codecs sha3 ops db ≡ good db'
      → Holds codecs hex sha3 R db' (spec_run sha3 ops spec)
  run-Holds [] db db' spec fits holds e =
      let same_db : db ≡ db' = cc in subst (λ d. Holds codecs hex sha3 R d spec) same_db holds
  run-Holds (put_block_op stored ∷ ops) db db' spec fits holds e =
      let (next, p, rest) = bind_good (put_block codecs hex sha3 R db stored) _ db' e in
      run-Holds ops next db' _ fits.1
        (put_block_refines R lawful hex hex_injective codecs are sha3 digest_width db next spec
          holds stored p fits.0)
        rest
  run-Holds (put_receipt_op tx_hash receipt ∷ ops) db db' spec fits holds e =
      let (next, p, rest) = bind_good (put_receipt codecs hex sha3 R db tx_hash receipt) _ db' e in
      run-Holds ops next db' _ fits.1
        (put_receipt_refines R lawful hex hex_injective codecs are sha3 digest_width db next spec
          holds tx_hash receipt p)
        rest
  run-Holds (set_latest_op height ∷ ops) db db' spec fits holds e =
      let (next, p, rest) = bind_good (set_latest_height codecs hex sha3 R db height) _ db' e in
      run-Holds ops next db' _ fits.1
        (set_latest_height_refines R lawful hex hex_injective codecs are sha3 digest_width db next
          spec holds height fits.0 p)
        rest

  -- For a lawful database, codecs that read back what they write, a text of a hash that no two share,
  -- and a hash of 32 bytes: after any sequence of calls of `put_block`, `put_receipt` and
  -- `set_latest_height` that all succeed, with heights of 64 bits, on a database that represents an
  -- abstract store, the database represents what the same calls make of the abstract store: every read
  -- of the store (of headers, bodies, blocks with and without their metadata, total difficulties, the
  -- presence of a block, hashes and blocks by height, the genesis hash, the locations of transactions,
  -- transactions, receipts, the latest height and hash), for heights of 64 bits, gives what the abstract
  -- store says.
  pub store_run_refines :
      (ops : List StoreOp) (db db' : R.Db) (spec : ChainSpec)
      → All HeightFits ops
      → Represents codecs hex sha3 R db spec
      → store_run R hex codecs sha3 ops db ≡ good db'
      → Represents codecs hex sha3 R db' (spec_run sha3 ops spec)
  store_run_refines ops db db' spec fits rep e =
      Holds-Represents codecs hex sha3 R db' (spec_run sha3 ops spec)
        (run-Holds ops db db' spec fits (Represents-Holds codecs hex sha3 R db spec rep) e)
