-- ===== src/Consensus/Chain/Import.antt =====
-- crates/frychain-consensus/src/chain.rs: `import_block`, with the pending blocks that follow, and
-- `verify_pow` of crates/frychain-consensus/src/pow.rs.
use fry_chain.HashMap.{lookup, insert, erase}
use fry_chain.Words.{u128_mod, wrapping_add}
use fry_chain.Core.Difficulty.{to_target}
use fry_chain.Core.Hash.{Hash256, meets_difficulty}
use fry_chain.Core.Block.{Block, BlockHeader, StoredBlock, new_stored, mining_blob, verify_pow}
use fry_chain.Results.{Result, good, bad}
use fry_chain.Storage.{StorageResult}
use fry_chain.Storage.Chain.{get_block as store_get_block, put_block, get_total_difficulty}
use fry_chain.Consensus.Validation.{
  ConsensusError, invalid_proof_of_work, storage_error, Verdict, accepted, rejected, validate_block,
}
use fry_chain.Prelude.{
  ℕ, zero, suc, Bool, true, false, Option, none, some, ltb, if◌then◌else◌, Outcome, done, panic,
  and_then, nat_eq, list_eq, string_eq,
}
use fry_chain.Consensus.Chain.{
  Env, ChainState, hash_of_block, has_block, set_head, total_difficulty, some_or_zero,
}

module _ (env : Env) where
  open env use {R, codecs, hex, sha3, cryptonight, verify_signature, block_size, config}

  -- `crate::pow::verify_pow`
  unfoldable pub compute_pow : BlockHeader → Result ConsensusError Hash256
  compute_pow header =
      let pow_hash = cryptonight (mining_blob header) in
      if meets_difficulty pow_hash (to_target header.difficulty)
      then good pow_hash
      else bad invalid_proof_of_work

  -- The steps of `import_block`; `good true` means that the block was stored, `good false` that the
  -- import returned before that.
  abbrev pub Step : Type 0
  Step = ChainState env × Result ConsensusError Bool

  -- After `put_block`: the head moves to a block of a larger total difficulty.
  abbrev pub and_true : ChainState env × Result ConsensusError (Unit {0}) → Step
  and_true (chain, bad e) = (chain, bad e)
  and_true (chain, good _) = (chain, good true)

  abbrev pub with_stored : ChainState env → StoredBlock → R.Db → ChainState env
  with_stored chain stored db = record chain {
    store = db;
    known_blocks = insert (hash_of_block env stored.block) tt chain.known_blocks;
  }

  abbrev pub after_put : ChainState env → StoredBlock → StorageResult R.Db → Step
  after_put chain stored (bad e) = (chain, bad (storage_error e))
  after_put chain stored (good db) =
      if ltb (total_difficulty chain) stored.total_difficulty
      then and_true (set_head env (with_stored chain stored db) stored)
      else (with_stored chain stored db, good true)

  abbrev pub after_parent_difficulty :
      ChainState env → Block → Hash256 → StorageResult (Option ℕ) → Step
  after_parent_difficulty chain block pow_hash (bad e) = (chain, bad (storage_error e))
  after_parent_difficulty chain block pow_hash (good parent_td) =
      let stored =
        new_stored block pow_hash
          (wrapping_add u128_mod (some_or_zero parent_td) block.header.difficulty) in
      after_put chain stored (put_block codecs hex sha3 R chain.store stored)

  abbrev pub after_validation : ChainState env → Block → Hash256 → Block → Verdict → Step
  after_validation chain block pow_hash parent (rejected e) = (chain, bad e)
  after_validation chain block pow_hash parent accepted =
      if verify_pow block.header pow_hash
      then after_parent_difficulty chain block pow_hash
          (get_total_difficulty codecs hex sha3 R chain.store (hash_of_block env parent))
      else (chain, bad invalid_proof_of_work)

  abbrev pub after_parent :
      ℕ → ChainState env → Block → Hash256 → StorageResult (Option Block) → Outcome Step
  after_parent now chain block pow_hash (bad e) = done (chain, bad (storage_error e))
  after_parent now chain block pow_hash (good none) = done (
    record chain { pending_blocks = insert block.header.parent_hash block chain.pending_blocks },
    good false,
  )
  after_parent now chain block pow_hash (good (some parent)) =
      and_then (validate_block sha3 verify_signature config now block_size block (some parent))
        (λ verdict. done (after_validation chain block pow_hash parent verdict))

  -- `import_block` up to the pending blocks.
  unfoldable pub import_one : ℕ → ChainState env → Block → Hash256 → Outcome Step
  unfolding has_block
  import_one now chain block pow_hash =
      if has_block env chain (hash_of_block env block)
      then done (chain, good false)
      else after_parent now chain block pow_hash
          (store_get_block codecs hex sha3 R chain.store block.header.parent_hash)

  abbrev pub Imported : Type 0
  Imported = ChainState env × Result ConsensusError (Unit {0})

  -- `process_pending_blocks`, around the recursive `import_block`.
  abbrev pub process_pending :
      (ChainState env → Block → Hash256 → Outcome Imported)
      → ChainState env
      → Hash256
      → Outcome Imported
  process_pending import chain parent_hash = elim (lookup parent_hash chain.pending_blocks) [
    | none ↦ done (chain, good tt)
    | some block ↦
        let taken : ChainState env = record chain {
          pending_blocks = erase parent_hash chain.pending_blocks;
        } in
        elim (compute_pow block.header) [
          | bad e ↦ done (taken, bad e)
          | good pow_hash ↦ import taken block pow_hash
        ]
  ]

  abbrev pub after_step :
      (ChainState env → Block → Hash256 → Outcome Imported)
      → Hash256
      → Outcome Step
      → Outcome Imported
  after_step import hash panic = panic
  after_step import hash (done (chain, bad e)) = done (chain, bad e)
  after_step import hash (done (chain, good false)) = done (chain, good tt)
  after_step import hash (done (chain, good true)) = process_pending import chain hash

  -- `import_block`: the clock is read once in each round, and running out of rounds counts as a
  -- panic.
  unfoldable pub import_block : (ℕ → ℕ) → ℕ → ChainState env → Block → Hash256 → Outcome Imported
  unfolding import_one compute_pow
  import_block clock zero chain block pow_hash = panic
  import_block clock (suc rounds) chain block pow_hash =
      after_step (import_block clock rounds) (hash_of_block env block)
        (import_one (clock rounds) chain block pow_hash)
