-- ===== src/Consensus/Chain/Steps.antt =====
-- The import of one block as a step relation: every way in which it can end.
-- The code is crates/frychain-consensus/src/chain.rs.
use fry_chain.HashMap.{insert}
use fry_chain.Words.{u128_mod, wrapping_add}
use fry_chain.Core.Hash.{Hash256}
use fry_chain.Core.Block.{Block, StoredBlock, new_stored, verify_pow}
use fry_chain.Results.{good, bad}
use fry_chain.Storage.{StorageResult}
use fry_chain.Storage.Chain.{put_block, set_latest_height, get_total_difficulty, get_block}
use fry_chain.Consensus.Validation.{
  ConsensusError, storage_error, invalid_proof_of_work, Verdict, accepted, rejected, validate_block,
}
use fry_chain.Consensus.Chain.{
  Env, ChainState, hash_of_block, total_difficulty, has_block, some_or_zero, head_written, set_head,
}
use fry_chain.Prelude.{
  ℕ, ◌≤◌, ◌<◌, ◌≡◌, refl, inl, inr, Bool, true, false, Option, none, some, Bool-cases, done, arith,
  nat_eq, list_eq, string_eq, ltb, if◌then◌else◌,
}
use fry_chain.Consensus.Validation.Blocks.{validate_block_iff}
use fry_chain.Consensus.Chain.Import.{
  Step, and_true, after_put, after_parent_difficulty, after_validation, import_one, with_stored,
  after_parent,
}

module _ (env : Env) where
  open env use {R, codecs, hex, sha3, verify_signature, block_size, config}

  -- What has been checked and done when a block has been stored.
  pub record IsStored (now : ℕ) (chain : ChainState env) (block : Block) (pow_hash : Hash256)
      (stored : StoredBlock) (db : R.Db) : Type 0 where
    pub parent : Block
    pub parent_td : Option ℕ
    pub fresh : has_block env chain (hash_of_block env block) ≡ false
    pub parent_found :
        get_block codecs hex sha3 R chain.store block.header.parent_hash ≡ good (some parent)
    pub valid :
        validate_block sha3 verify_signature config now block_size block (some parent)
        ≡ done accepted
    pub work : verify_pow block.header pow_hash ≡ true
    pub td_found :
        get_total_difficulty codecs hex sha3 R chain.store (hash_of_block env parent)
        ≡ good parent_td
    pub weighed :
        stored
        ≡ new_stored block pow_hash
            (wrapping_add u128_mod (some_or_zero parent_td) block.header.difficulty)
    pub written : put_block codecs hex sha3 R chain.store stored ≡ good db

  pub data ImportStep (now : ℕ) (chain : ChainState env) (block : Block) (pow_hash : Hash256)
      : Step env → Type 0 where
    known :
        has_block env chain (hash_of_block env block) ≡ true
        → ImportStep now chain block pow_hash (chain, good false)
    orphaned :
        has_block env chain (hash_of_block env block) ≡ false
        → get_block codecs hex sha3 R chain.store block.header.parent_hash ≡ good none
        → ImportStep now chain block pow_hash (
          record chain {
            pending_blocks = insert block.header.parent_hash block chain.pending_blocks;
          },
          good false,
        )
    refused : (e : ConsensusError) → ImportStep now chain block pow_hash (chain, bad e)
    head_failed :
        (stored : StoredBlock) (db : R.Db) (e : ConsensusError)
        → IsStored now chain block pow_hash stored db
        → total_difficulty chain < stored.total_difficulty
        → ImportStep now chain block pow_hash (with_stored env chain stored db, bad e)
    new_head :
        (stored : StoredBlock) (db db' : R.Db)
        → IsStored now chain block pow_hash stored db
        → total_difficulty chain < stored.total_difficulty
        → set_latest_height codecs hex sha3 R db stored.block.header.height ≡ good db'
        → ImportStep now chain block pow_hash (
          record (with_stored env chain stored db) { store = db'; head = some stored },
          good true,
        )
    side_block :
        (stored : StoredBlock) (db : R.Db)
        → IsStored now chain block pow_hash stored db
        → stored.total_difficulty ≤ total_difficulty chain
        → ImportStep now chain block pow_hash (with_stored env chain stored db, good true)

  module _ (now : ℕ) (chain : ChainState env) (block : Block) (pow_hash : Hash256) where
    head_step :
        (stored : StoredBlock) (db : R.Db)
        → IsStored now chain block pow_hash stored db
        → (b : Bool) → ltb (total_difficulty chain) stored.total_difficulty ≡ b
        → (r : StorageResult R.Db)
        → set_latest_height codecs hex sha3 R db stored.block.header.height ≡ r
        → ImportStep now chain block pow_hash (
            if b
            then and_true env (head_written env (with_stored env chain stored db) stored r)
            else (with_stored env chain stored db, good true))
    head_step stored db is false light r set = side_block stored db is (ground arith)
    head_step stored db is true more (bad e) set =
        head_failed stored db (storage_error e) is (ground arith)
    head_step stored db is true more (good db') set = new_head stored db db' is (ground arith) set

    put_step :
        (stored : StoredBlock)
        → ((db : R.Db)
            → put_block codecs hex sha3 R chain.store stored ≡ good db
            → IsStored now chain block pow_hash stored db)
        → (r : StorageResult R.Db) → put_block codecs hex sha3 R chain.store stored ≡ r
        → ImportStep now chain block pow_hash (after_put env chain stored r)
    unfolding set_head
    put_step stored is (bad e) put = refused (storage_error e)
    put_step stored is (good db) put =
        head_step stored db (is db put) (ltb (total_difficulty chain) stored.total_difficulty) refl
          (set_latest_height codecs hex sha3 R db stored.block.header.height) refl

    module _ (parent : Block) (fresh : has_block env chain (hash_of_block env block) ≡ false)
        (parent_found : get_block codecs hex sha3 R chain.store block.header.parent_hash
          ≡ good (some parent)) where
      weigh_step :
          validate_block sha3 verify_signature config now block_size block (some parent)
            ≡ done accepted
          → verify_pow block.header pow_hash ≡ true
          → (r : StorageResult (Option ℕ))
          → get_total_difficulty codecs hex sha3 R chain.store (hash_of_block env parent) ≡ r
          → ImportStep now chain block pow_hash (after_parent_difficulty env chain block pow_hash r)
      weigh_step valid work (bad e) td = refused (storage_error e)
      weigh_step valid work (good parent_td) td =
          let stored =
            new_stored block pow_hash
              (wrapping_add u128_mod (some_or_zero parent_td) block.header.difficulty) in
          put_step stored
            (λ db put. record {
              parent = parent;
              parent_td = parent_td;
              fresh = fresh;
              parent_found = parent_found;
              valid = valid;
              work = work;
              td_found = td;
              weighed = refl;
              written = put;
            })
            (put_block codecs hex sha3 R chain.store stored) refl

      work_step :
          validate_block sha3 verify_signature config now block_size block (some parent)
            ≡ done accepted
          → (b : Bool) → verify_pow block.header pow_hash ≡ b
          → ImportStep now chain block pow_hash (
              if b
              then after_parent_difficulty env chain block pow_hash
                  (get_total_difficulty codecs hex sha3 R chain.store (hash_of_block env parent))
              else (chain, bad invalid_proof_of_work))
      work_step valid true work =
          weigh_step valid work
            (get_total_difficulty codecs hex sha3 R chain.store (hash_of_block env parent)) refl
      work_step valid false work = refused invalid_proof_of_work

      validation_step :
          (v : Verdict)
          → validate_block sha3 verify_signature config now block_size block (some parent) ≡ done v
          → ImportStep now chain block pow_hash (after_validation env chain block pow_hash parent v)
      validation_step (rejected e) valid = refused e
      validation_step accepted valid = work_step valid (verify_pow block.header pow_hash) refl

    parent_step :
        has_block env chain (hash_of_block env block) ≡ false
        → (r : StorageResult (Option Block))
        → get_block codecs hex sha3 R chain.store block.header.parent_hash ≡ r
        → (s : Step env) × (after_parent env now chain block pow_hash r ≡ done s)
          × ImportStep now chain block pow_hash s
    parent_step fresh (bad e) found =
        ((chain, bad (storage_error e)), refl, refused (storage_error e))
    parent_step fresh (good none) found = (_, refl, orphaned fresh found)
    parent_step fresh (good (some parent)) found =
        let (v, valid, rules) =
          validate_block_iff sha3 verify_signature config now block_size block (some parent) in
        (
          after_validation env chain block pow_hash parent v,
          rw valid refl,
          validation_step parent fresh found v valid,
        )

    -- The import of one block does not panic, and it ends in one of the ways of the relation.
    pub import_one-ImportStep :
        (s : Step env) × (import_one env now chain block pow_hash ≡ done s)
        × ImportStep now chain block pow_hash s
    unfolding import_one
    import_one-ImportStep = elim (Bool-cases (has_block env chain (hash_of_block env block))) [
      | inl old ↦ ((chain, good false), rw (import_one, old) refl, known old)
      | inr fresh ↦
          let (s, e, step) =
            parent_step fresh (get_block codecs hex sha3 R chain.store block.header.parent_hash)
              refl in
          (s, rw (import_one, fresh) e, step)
    ]
