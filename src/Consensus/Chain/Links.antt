-- ===== src/Consensus/Chain/Links.antt =====
-- Every block that the chain has stored is linked to a stored parent.
-- The code is crates/frychain-consensus/src/chain.rs.
use fry_chain.Words.{u128_mod, wrapping_add}
use fry_chain.Core.Hash.{Hash256}
use fry_chain.Core.Block.{Block, StoredBlock, new_stored, verify_pow, header_hash}
use fry_chain.Results.{good}
use fry_chain.Storage.{IsLawful, StorageResult, good_or_false}
use fry_chain.Storage.Chain.{
  has_block as store_has_block, get_block, get_stored_block, get_total_difficulty,
}
use fry_chain.Storage.Chain.Frames.{
  SameBlock, put_block-SameBlock, set_latest_height-SameBlock, has_block-false,
  get_stored_block-put_block,
}
use fry_chain.Storage.Chain.Spec.{AreCodecs}
use fry_chain.Consensus.Validation.{accepted, Verdict}
use fry_chain.Consensus.Validation.Headers.{IsLinked}
use fry_chain.Consensus.Validation.Blocks.{IsWellFormed, validate_block_iff}
use fry_chain.Consensus.Chain.{Env, ChainState, hash_of_block, some_or_zero, has_block}
use fry_chain.Consensus.Chain.Steps.{
  IsStored, ImportStep, known, orphaned, refused, head_failed, new_head, side_block,
}
use fry_chain.Consensus.Chain.Evolution.{Evolves, stays, takes, imports, import_block_ends}
use fry_chain.Prelude.{
  ℕ, ◌+◌, ◌≡◌, ◌⊎◌, refl, sym, ap, ◌∙◌, subst, inl, inr, true, false, Option, some, List, done,
  arith, length, same, Bool-cases, list_beq_iff, nat_eq, list_eq, string_eq, ◌||◌, Outcome,
}
use fry_chain.HashMap.{contains_key}
use fry_chain.Consensus.Chain.Import.{Step, Imported, import_block}

module _ (env : Env) where
  open env use {R, codecs, hex, sha3, verify_signature, block_size, config}

  -- The block follows a parent that the database holds: it passed the validation against it at some
  -- time, its proof of work meets its difficulty, and its total difficulty is the parent's with its
  -- own added.
  pub record HasParent (db : R.Db) (stored : StoredBlock) : Type 0 where
    pub parent : Block
    pub parent_td : Option ℕ
    pub now : ℕ
    pub found : get_block codecs hex sha3 R db stored.block.header.parent_hash ≡ good (some parent)
    pub linked : IsLinked sha3 now stored.block.header (some parent.header)
    pub well_formed : IsWellFormed sha3 verify_signature config block_size stored.block
    pub work : verify_pow stored.block.header stored.pow_hash ≡ true
    pub td_found :
        get_total_difficulty codecs hex sha3 R db stored.block.header.parent_hash ≡ good parent_td
    pub weighed :
        stored.total_difficulty
        ≡ wrapping_add u128_mod (some_or_zero parent_td) stored.block.header.difficulty

  -- Every stored block is a genesis block or has a parent.
  abbrev pub IsChained : R.Db → Type 0
  IsChained db =
      (k : Hash256) (stored : StoredBlock)
      → get_stored_block codecs hex sha3 R db k ≡ good (some stored)
      → (stored.block.header.height ≡ 0) ⊎ HasParent db stored

  HasParent-same :
      (db db' : R.Db) (stored : StoredBlock)
      → SameBlock codecs hex sha3 R db db' stored.block.header.parent_hash
      → HasParent db stored
      → HasParent db' stored
  HasParent-same db db' stored s p = record {
    parent = p.parent;
    parent_td = p.parent_td;
    now = p.now;
    found = s.block ∙ p.found;
    linked = p.linked;
    well_formed = p.well_formed;
    work = p.work;
    td_found = s.td ∙ p.td_found;
    weighed = p.weighed;
  }

  done_accepted : (v : Verdict) → ◌≡◌ {A = Outcome Verdict} (done accepted) (done v) → v ≡ accepted
  done_accepted v e = cc

  good_some :
      (a b : StoredBlock)
      → ◌≡◌ {A = StorageResult (Option StoredBlock)} (good (some a)) (good (some b))
      → a ≡ b
  good_some a b e = cc

  module _ (lawful : IsLawful R) (hex_injective : (a b : List ℕ) → hex a ≡ hex b → a ≡ b)
      (are : AreCodecs codecs) where
    set_latest-IsChained :
        (db db' : R.Db)
        → ((k : Hash256) → SameBlock codecs hex sha3 R db db' k)
        → IsChained db
        → IsChained db'
    set_latest-IsChained db db' s c k stored e = elim (c k stored (sym (s k).stored ∙ e)) [
      | inl genesis ↦ inl genesis
      | inr p ↦ inr (HasParent-same db db' stored (s stored.block.header.parent_hash) p)
    ]

    module _ (now : ℕ) (chain : ChainState env) (block : Block) (pow_hash : Hash256)
        (stored : StoredBlock) (db : R.Db)
        (is : IsStored env now chain block pow_hash stored db) where
      -- A block that the store has is not the new one.
      other_hash :
          (k : Hash256) (b : Block)
          → get_block codecs hex sha3 R chain.store k ≡ good (some b)
          → same (hash_of_block env block) k ≡ false
      unfolding has_block
      other_hash k b found = elim (Bool-cases (same (hash_of_block env block) k)) [
        | inr other ↦ other
        | inl eq ↦
            let at : k ≡ hash_of_block env block =
              sym ((list_beq_iff (hash_of_block env block) k).0 eq) in
            let absent = no_header (is.fresh) in
            absurd (
              has_block-false codecs hex sha3 R chain.store (hash_of_block env block) b absent
                (subst (λ h. get_block codecs hex sha3 R chain.store h ≡ good (some b)) at found))
      ]
        where
          no_header :
              contains_key (hash_of_block env block) chain.known_blocks
                  || good_or_false
                      (store_has_block codecs hex sha3 R chain.store (hash_of_block env block))
                ≡ false
              → good_or_false
                  (store_has_block codecs hex sha3 R chain.store (hash_of_block env block))
                ≡ false
          no_header h = ground arith

      same_block : stored.block ≡ block
      unfolding new_stored
      same_block = ap (λ (s : StoredBlock). s.block) is.weighed

      kept :
          (k : Hash256) (b : Block)
          → get_block codecs hex sha3 R chain.store k ≡ good (some b)
          → SameBlock codecs hex sha3 R chain.store db k
      kept k b found =
          put_block-SameBlock codecs hex sha3 R lawful hex_injective chain.store db stored k
            is.written (rw same_block (other_hash k b found))

      -- The new block has its parent.
      stored-HasParent : HasParent db stored
      unfolding new_stored
      stored-HasParent =
          let (v, valid, rules) =
            validate_block_iff sha3 verify_signature config now block_size block (some is.parent) in
          let yes : v ≡ accepted = done_accepted v (sym is.valid ∙ valid) in
          let (linked, formed) = rules.0 yes in
          let at : block.header.parent_hash ≡ hash_of_block env is.parent = linked.2 in
          let s = kept block.header.parent_hash is.parent is.parent_found in
          let p : HasParent db (
              new_stored block pow_hash
                (wrapping_add u128_mod (some_or_zero is.parent_td) block.header.difficulty)) =
            record {
              parent = is.parent;
              parent_td = is.parent_td;
              now = now;
              found = s.block ∙ is.parent_found;
              linked = linked;
              well_formed = formed;
              work = is.work;
              td_found =
                  s.td ∙ ap (get_total_difficulty codecs hex sha3 R chain.store) at ∙ is.td_found;
              weighed = refl;
            } in
          subst (HasParent db) (sym is.weighed) p

      stored-IsChained : IsChained chain.store → IsChained db
      stored-IsChained c k s e = elim (Bool-cases (same (header_hash sha3 stored.block.header) k)) [
        | inl eq ↦
            let self =
              get_stored_block-put_block codecs hex sha3 R lawful hex_injective are chain.store db
                stored k is.written eq in
            let same_stored : stored ≡ s = good_some stored s (sym self ∙ e) in
            inr (subst (HasParent db) same_stored stored-HasParent)
        | inr ne ↦
            let frame =
              put_block-SameBlock codecs hex sha3 R lawful hex_injective chain.store db stored k
                is.written ne in
            elim (c k s (sym frame.stored ∙ e)) [
              | inl genesis ↦ inl genesis
              | inr p ↦ inr (
                  HasParent-same chain.store db s (kept s.block.header.parent_hash p.parent p.found)
                    p)
            ]
      ]

    step-IsChained :
        (now : ℕ) (chain : ChainState env) (block : Block) (pow_hash : Hash256) (s : Step env)
        → ImportStep env now chain block pow_hash s
        → IsChained chain.store
        → IsChained s.0.store
    step-IsChained now chain block pow_hash _ (known h) c = c
    step-IsChained now chain block pow_hash _ (orphaned h k) c = c
    step-IsChained now chain block pow_hash _ (refused x) c = c
    step-IsChained now chain block pow_hash _ (head_failed stored db x is more) c =
        stored-IsChained now chain block pow_hash stored db is c
    step-IsChained now chain block pow_hash _ (new_head stored db db' is more set) c =
        set_latest-IsChained db db'
          (λ k.
            set_latest_height-SameBlock codecs hex sha3 R lawful hex_injective db db'
              stored.block.header.height k set)
          (stored-IsChained now chain block pow_hash stored db is c)
    step-IsChained now chain block pow_hash _ (side_block stored db is light) c =
        stored-IsChained now chain block pow_hash stored db is c

    pub Evolves-IsChained :
        (start chain : ChainState env)
        → Evolves env start chain
        → IsChained start.store
        → IsChained chain.store
    Evolves-IsChained start _ stays c = c
    Evolves-IsChained start _ (takes chain parent_hash h) c = Evolves-IsChained start chain h c
    Evolves-IsChained start _ (imports chain now block pow_hash s h step) c =
        step-IsChained now chain block pow_hash s step (Evolves-IsChained start chain h c)

    -- From a database in which every block is a genesis block or has a parent, the import of a block,
    -- with all that follows from it and whatever its outcome, leads to such a database: each stored
    -- block of a height above zero has a stored parent against which it passed the validation, meets
    -- its difficulty, and carries the parent's total difficulty with its own added.
    pub import_block-IsChained :
        (clock : ℕ → ℕ) (chain : ChainState env) (block : Block) (pow_hash : Hash256)
        → IsChained chain.store
        → (r : Imported env) × (import_block env clock
              (length chain.pending_blocks + 1)
              chain
              block
              pow_hash
            ≡ done r)
          × IsChained r.0.store
    import_block-IsChained clock chain block pow_hash c =
        let (r, e, evolves) = import_block_ends env clock chain block pow_hash in
        (r, e, Evolves-IsChained chain r.0 evolves c)
