-- ===== src/Consensus/Chain/Head.antt =====
-- The head of the chain only ever moves to a block of a larger total difficulty.
-- The code is crates/frychain-consensus/src/chain.rs.
use fry_chain.Core.Hash.{Hash256}
use fry_chain.Core.Block.{Block}
use fry_chain.Consensus.Chain.{Env, ChainState, total_difficulty}
use fry_chain.Consensus.Chain.Steps.{
  ImportStep, known, orphaned, refused, head_failed, new_head, side_block,
}
use fry_chain.Consensus.Chain.Evolution.{Evolves, stays, takes, imports, import_block_ends}
use fry_chain.Prelude.{ℕ, ◌+◌, ◌<◌, ◌≡◌, ◌⊎◌, refl, inl, inr, done, arith, length, sym, ◌∙◌}
use fry_chain.Consensus.Chain.Import.{Step, Imported, import_block}

module _ (env : Env) where
  abbrev HeadGrows : ChainState env → ChainState env → Type 0
  HeadGrows chain chain' =
      (chain'.head ≡ chain.head) ⊎ (total_difficulty chain < total_difficulty chain')

  step-HeadGrows :
      (now : ℕ) (chain : ChainState env) (block : Block) (pow_hash : Hash256) (s : Step env)
      → ImportStep env now chain block pow_hash s
      → HeadGrows chain s.0
  unfolding total_difficulty
  step-HeadGrows now chain block pow_hash _ (known h) = inl refl
  step-HeadGrows now chain block pow_hash _ (orphaned h k) = inl refl
  step-HeadGrows now chain block pow_hash _ (refused x) = inl refl
  step-HeadGrows now chain block pow_hash _ (head_failed stored db x is more) = inl refl
  step-HeadGrows now chain block pow_hash _ (new_head stored db db' is more set) = inr more
  step-HeadGrows now chain block pow_hash _ (side_block stored db is light) = inl refl

  HeadGrows-trans : (a b c : ChainState env) → HeadGrows a b → HeadGrows b c → HeadGrows a c
  unfolding total_difficulty
  HeadGrows-trans a b c (inl h) (inl k) = inl (k ∙ h)
  HeadGrows-trans a b c (inl h) (inr k) = inr (rw (sym h) k)
  HeadGrows-trans a b c (inr h) (inl k) = inr (rw k h)
  HeadGrows-trans a b c (inr h) (inr k) = inr (omega arith)

  pub Evolves-HeadGrows :
      (start chain : ChainState env) → Evolves env start chain → HeadGrows start chain
  unfolding total_difficulty
  Evolves-HeadGrows start _ stays = inl refl
  Evolves-HeadGrows start _ (takes chain parent_hash h) = Evolves-HeadGrows start chain h
  Evolves-HeadGrows start _ (imports chain now block pow_hash s h step) =
      HeadGrows-trans start chain s.0 (Evolves-HeadGrows start chain h)
        (step-HeadGrows now chain block pow_hash s step)

  -- The import of a block, with enough rounds, ends, and the head is then the one from before or one
  -- of a strictly larger total difficulty, whatever the outcome of the import.
  pub import_block-head :
      (clock : ℕ → ℕ) (chain : ChainState env) (block : Block) (pow_hash : Hash256)
      → (r : Imported env) × (import_block env clock
            (length chain.pending_blocks + 1)
            chain
            block
            pow_hash
          ≡ done r)
        × ((r.0.head ≡ chain.head) ⊎ (total_difficulty chain < total_difficulty r.0))
  import_block-head clock chain block pow_hash =
      let (r, e, evolves) = import_block_ends env clock chain block pow_hash in
      (r, e, Evolves-HeadGrows chain r.0 evolves)
