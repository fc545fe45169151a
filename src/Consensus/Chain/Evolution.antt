-- ===== src/Consensus/Chain/Evolution.antt =====
-- An import with all the pending blocks that follow: it ends, and it is a sequence of steps.
-- The code is crates/frychain-consensus/src/chain.rs.
use fry_chain.HashMap.{lookup, erase}
use fry_chain.HashMap.Laws.{length-erase_found}
use fry_chain.Core.Hash.{Hash256}
use fry_chain.Core.Block.{Block}
use fry_chain.Results.{Result, good, bad}
use fry_chain.Consensus.Validation.{ConsensusError}
use fry_chain.Consensus.Chain.{Env, ChainState, hash_of_block}
use fry_chain.Consensus.Chain.Steps.{
  ImportStep, import_one-ImportStep, known, orphaned, refused, head_failed, new_head, side_block,
}
use fry_chain.Prelude.{
  ℕ, zero, suc, ◌+◌, ◌≤◌, ◌<◌, ◌≡◌, refl, inl, inr, ap, ◌∙◌, true, false, Option-cases, Outcome,
  done, arith, length, nat_eq, list_eq, string_eq,
}
use fry_chain.Consensus.Chain.Import.{
  Step, Imported, import_block, process_pending, after_step, compute_pow,
}

module _ (env : Env) where
  -- The states that a chain goes through: blocks are imported, and pending blocks are taken out.
  pub data Evolves (start : ChainState env) : ChainState env → Type 0 where
    stays : Evolves start start
    takes :
        (chain : ChainState env) (parent_hash : Hash256)
        → Evolves start chain
        → Evolves start (record chain { pending_blocks = erase parent_hash chain.pending_blocks })
    imports :
        (chain : ChainState env) (now : ℕ) (block : Block) (pow_hash : Hash256) (s : Step env)
        → Evolves start chain
        → ImportStep env now chain block pow_hash s
        → Evolves start s.0

  pub Evolves-trans : (a b c : ChainState env) → Evolves a b → Evolves b c → Evolves a c
  Evolves-trans a b _ h stays = h
  Evolves-trans a b _ h (takes chain parent_hash k) =
      takes chain parent_hash (Evolves-trans a b chain h k)
  Evolves-trans a b _ h (imports chain now block pow_hash s k step) =
      imports chain now block pow_hash s (Evolves-trans a b chain h k) step

  -- A block that has been stored leaves the pending blocks alone.
  stored-pending :
      (now : ℕ) (chain : ChainState env) (block : Block) (pow_hash : Hash256) (s : Step env)
      → ImportStep env now chain block pow_hash s
      → s.1 ≡ good true
      → s.0.pending_blocks ≡ chain.pending_blocks
  stored-pending now chain block pow_hash _ (known h) e = cc
  stored-pending now chain block pow_hash _ (orphaned h k) e = cc
  stored-pending now chain block pow_hash _ (refused x) e = cc
  stored-pending now chain block pow_hash _ (head_failed stored db x is more) e = cc
  stored-pending now chain block pow_hash _ (new_head stored db db' is more set) e = refl
  stored-pending now chain block pow_hash _ (side_block stored db is light) e = refl

  -- An outcome that ends in a state the chain evolves to.
  abbrev EndsFrom : ChainState env → Outcome (Imported env) → Type 0
  EndsFrom start o = (r : Imported env) × (o ≡ done r) × Evolves start r.0

  module _ (go : ChainState env → Block → Hash256 → Outcome (Imported env)) (bound : ℕ)
      (ends : (chain : ChainState env) (block : Block) (pow_hash : Hash256)
        → length chain.pending_blocks < bound
        → EndsFrom chain (go chain block pow_hash)) where
    pow_ends :
        (start taken : ChainState env) (block : Block) (p : Result ConsensusError Hash256)
        → Evolves start taken
        → length taken.pending_blocks < bound
        → EndsFrom start
            (elim p [ bad e ↦ done (taken, bad e) | good pow_hash ↦ go taken block pow_hash ])
    pow_ends start taken block (bad e) h few = ((taken, bad e), refl, h)
    pow_ends start taken block (good pow_hash) h few =
        let (r, e, k) = ends taken block pow_hash few in (r, e, Evolves-trans start taken r.0 h k)

    pending_ends :
        (start chain : ChainState env) (parent_hash : Hash256)
        → Evolves start chain
        → length chain.pending_blocks ≤ bound
        → EndsFrom start (process_pending env go chain parent_hash)
    pending_ends start chain parent_hash h few =
        elim (Option-cases (lookup parent_hash chain.pending_blocks)) [
          | inl alone ↦ rw (process_pending, alone) ((chain, good tt), refl, h)
          | inr (block, found) ↦
              let fewer = length-erase_found parent_hash block chain.pending_blocks found in
              rw (process_pending, found)
                (pow_ends start
                  (record chain { pending_blocks = erase parent_hash chain.pending_blocks }) block
                  (compute_pow env block.header) (takes chain parent_hash h) (omega (arith, fewer)))
        ]

    step_ends :
        (start : ChainState env) (hash : Hash256) (s : Step env)
        → Evolves start s.0
        → (s.1 ≡ good true → length s.0.pending_blocks ≤ bound)
        → EndsFrom start (after_step env go hash (done s))
    step_ends start hash (chain, bad e) h few = ((chain, bad e), refl, h)
    step_ends start hash (chain, good false) h few = ((chain, good tt), refl, h)
    step_ends start hash (chain, good true) h few = pending_ends start chain hash h (few refl)

  import_ends :
      (clock : ℕ → ℕ) (rounds : ℕ) (chain : ChainState env) (block : Block) (pow_hash : Hash256)
      → length chain.pending_blocks < rounds
      → EndsFrom chain (import_block env clock rounds chain block pow_hash)
  unfolding import_block
  import_ends clock zero chain block pow_hash h = absurd (omega arith)
  import_ends clock (suc rounds) chain block pow_hash h =
      let (s, e, step) = import_one-ImportStep env (clock rounds) chain block pow_hash in
      let same_pending = stored-pending (clock rounds) chain block pow_hash s step in
      let (r, f, k) =
        step_ends (import_block env clock rounds) rounds (import_ends clock rounds) chain
          (hash_of_block env block) s (imports chain (clock rounds) block pow_hash s stays step)
          (λ ok. rw (same_pending ok) (omega arith)) in
      (r, ap (after_step env (import_block env clock rounds) (hash_of_block env block)) e ∙ f, k)

  -- The import of a block does not panic, and ends after at most one round more than there are pending
  -- blocks; the chain that it leaves, after an error too, is reached by imports of single blocks and
  -- by taking out pending blocks.
  pub import_block_ends :
      (clock : ℕ → ℕ) (chain : ChainState env) (block : Block) (pow_hash : Hash256)
      → (r : Imported env) × (import_block env clock
            (length chain.pending_blocks + 1)
            chain
            block
            pow_hash
          ≡ done r)
        × Evolves chain r.0
  import_block_ends clock chain block pow_hash =
      import_ends clock (length chain.pending_blocks + 1) chain block pow_hash (omega arith)
