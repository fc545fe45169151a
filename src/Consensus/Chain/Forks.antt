-- ===== src/Consensus/Chain/Forks.antt =====
-- What happens to blocks beside the head's branch, and to orphans.
-- The code is crates/frychain-consensus/src/chain.rs.
use fry_chain.Core.Hash.{Hash256}
use fry_chain.Core.Block.{Block, StoredBlock, new_stored, header_hash}
use fry_chain.Results.{good, bad}
use fry_chain.Storage.{IsLawful}
use fry_chain.Storage.Chain.{get_hash_by_height, get_block, get_total_difficulty, put_block}
use fry_chain.Storage.Chain.Frames.{get_hash_by_height-put_block}
use fry_chain.Consensus.Chain.{Env, ChainState, hash_of_block, total_difficulty, set_head}
use fry_chain.Consensus.Chain.Steps.{IsStored}
use fry_chain.Prelude.{
  ℕ, ◌≤◌, ◌≡◌, refl, ap, sym, ◌∙◌, subst, true, false, some, done, and_then, length, arith, ltb,
  List, nat_eq, list_eq, string_eq, if◌then◌else◌,
}
use fry_chain.Consensus.Validation.{invalid_proof_of_work}
use fry_chain.Consensus.Chain.Import.{
  import_one, after_parent, after_put, with_stored, after_validation, and_true,
  after_parent_difficulty,
}

module _ (env : Env) where
  open env use {R, codecs, hex, sha3}

  -- A block with all that it needs is stored.
  stored_step :
      (now : ℕ) (chain : ChainState env) (block : Block) (pow_hash : Hash256) (stored : StoredBlock)
      (db : R.Db)
      → IsStored env now chain block pow_hash stored db
      → import_one env now chain block pow_hash ≡ done (after_put env chain stored (good db))
  unfolding import_one
  stored_step now chain block pow_hash stored db is =
      ap
        (λ c.
          if c
          then done (chain, good false)
          else after_parent env now chain block pow_hash
              (get_block codecs hex sha3 R chain.store block.header.parent_hash))
        is.fresh
      ∙ ap (after_parent env now chain block pow_hash) is.parent_found
      ∙ ap (λ o. and_then o (λ v. done (after_validation env chain block pow_hash is.parent v)))
          is.valid
      ∙ ap
          (λ c. done (
            if c
            then after_parent_difficulty env chain block pow_hash
                (get_total_difficulty codecs hex sha3 R chain.store (hash_of_block env is.parent))
            else (chain, bad invalid_proof_of_work)))
          is.work
      ∙ ap (λ r. done (after_parent_difficulty env chain block pow_hash r)) is.td_found
      ∙ ap (λ s. done (after_put env chain s (put_block codecs hex sha3 R chain.store s)))
          (sym is.weighed)
      ∙ ap (λ r. done (after_put env chain stored r)) is.written

  module _ (lawful : IsLawful R) (digest_width : (x : List ℕ) → length (sha3 x) ≡ 32) where
    -- A block that is stored without becoming the head still takes its height: the store names it as
    -- the block of that height, although the head is on another branch.
    pub side_block_overwrites :
        (now : ℕ) (chain : ChainState env) (block : Block) (pow_hash : Hash256)
        (stored : StoredBlock) (db : R.Db)
        → IsStored env now chain block pow_hash stored db
        → stored.total_difficulty ≤ total_difficulty chain
        → (import_one env now chain block pow_hash
            ≡ done (with_stored env chain stored db, good true))
          × ((with_stored env chain stored db).head ≡ chain.head)
          × (get_hash_by_height codecs hex sha3 R db block.header.height
              ≡ good (some (hash_of_block env block)))
    unfolding new_stored header_hash
    side_block_overwrites now chain block pow_hash stored db is light =
        let same_block : stored.block ≡ block = ap (λ (s : StoredBlock). s.block) is.weighed in
        let canonical : stored.is_canonical ≡ true =
          ap (λ (s : StoredBlock). s.is_canonical) is.weighed in
        let below : ltb (total_difficulty chain) stored.total_difficulty ≡ false = ground arith in
        let by_height =
          get_hash_by_height-put_block codecs hex sha3 R lawful chain.store db stored is.written
            canonical (digest_width _) in
        (
          stored_step now chain block pow_hash stored db is
              ∙ ap
                  (λ c. done (
                    if c
                    then and_true env (set_head env (with_stored env chain stored db) stored)
                    else (with_stored env chain stored db, good true)))
                  below,
          refl,
          subst
              (λ (b : Block).
                get_hash_by_height codecs hex sha3 R db b.header.height
                ≡ good (some (header_hash sha3 b.header)))
              same_block by_height,
        )
