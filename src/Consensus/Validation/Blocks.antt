-- ===== src/Consensus/Validation/Blocks.antt =====
-- What an accepted block satisfies.
-- The code is crates/frychain-consensus/src/validation.rs.
use fry_chain.Prelude.{
  ℕ, ◌≤◌, ◌≡◌, ◌≢◌, ◌↔◌, Bool, true, false, not, ◌&&◌, Option, List, [], ◌∷◌, arith, done, length,
  refl, ◌⊎◌, inl, inr, ltb, same, list_beq_iff, nat_eq, list_eq, string_eq, sym, ◌∙◌, none, some,
}
use fry_chain.Core.Hash.{Hash256}
use fry_chain.Core.Transaction.{Signature, SignedTransaction, transaction_hash, is_post_quantum}
use fry_chain.Core.Config.{ChainConfig}
use fry_chain.Consensus.Validation.{
  validate_transaction, validate_transactions, validate_block, accepted, validate_body, Verdict,
  then_check, ConsensusError, validate_header, header_of, reject_if, rejected, bad_structure,
  validate_genesis, validate_child,
}
use fry_chain.Core.Block.{
  Block, max_block_size, max_txs_per_block, verify_structure, calculate_transactions_root,
  invalid_transactions_root, block_too_large, too_many_transactions, extra_data_too_long,
  BlockHeader,
}
use fry_chain.Consensus.Validation.Headers.{IsLinked, validate_header-iff-IsLinked}
use fry_chain.Core.Address.{address_eq}
use fry_chain.Core.Block.Structure.{calculate_transactions_root_done}

header_difficulty :
    (sha3 : List ℕ → Hash256) (now : ℕ) (header : BlockHeader) (parent : Option BlockHeader) (d : ℕ)
    → validate_header sha3 now (record header { difficulty = d }) parent
      ≡ validate_header sha3 now header parent
unfolding validate_header validate_genesis validate_child
header_difficulty sha3 now header none d = refl
header_difficulty sha3 now header (some p) d = refl

module _ (sha3 : List ℕ → Hash256) (verify_signature : Signature → List ℕ → Bool)
    (config : ChainConfig) where
  -- What the chain asks of a transaction.
  pub record IsAcceptable (tx : SignedTransaction) : Type 0 where
    pub own_chain : tx.transaction.chain_id ≡ config.chain_id
    pub priced : config.min_gas_price ≤ tx.transaction.gas_price
    pub has_gas : tx.transaction.gas_limit ≢ 0
    pub signed : verify_signature tx.signature (transaction_hash sha3 tx.transaction) ≡ true
    pub post_quantum : config.post_quantum_only && not (is_post_quantum tx.signature) ≡ false

  abbrev pub AllAcceptable : List SignedTransaction → Type 0
  AllAcceptable [] = Unit
  AllAcceptable (tx ∷ txs) = IsAcceptable tx × AllAcceptable txs

  validate_transaction_lem :
      (tx : SignedTransaction)
      → (validate_transaction sha3 verify_signature config tx ≡ accepted) ↔ IsAcceptable tx
  unfolding validate_transaction
  validate_transaction_lem tx = ground arith

  validate_transactions_lem :
      (txs : List SignedTransaction)
      → (validate_transactions sha3 verify_signature config txs ≡ accepted) ↔ AllAcceptable txs
  unfolding validate_transactions
  validate_transactions_lem [] = ground arith
  validate_transactions_lem (tx ∷ txs) =
      ground (arith, validate_transaction_lem tx, validate_transactions_lem txs)

  -- What an accepted block satisfies, after its header.
  pub record IsWellFormed (block_size : Block → ℕ) (block : Block) : Type 0 where
    pub small : block_size block ≤ max_block_size
    pub few : length block.body.transactions ≤ max_txs_per_block
    pub brief : length block.header.extra_data ≤ 32
    pub committed :
        calculate_transactions_root sha3 block.body ≡ done block.header.transactions_root
    pub acceptable : AllAcceptable block.body.transactions

  -- The verdict on a block whose transactions have the root `h`, from those on its header and on its
  -- transactions.
  abbrev verdict : Hash256 → Verdict → Verdict → (Block → ℕ) → Block → Verdict
  verdict h on_header on_transactions block_size block = then_check on_header (
      reject_if (not (same h block.header.transactions_root))
        (bad_structure invalid_transactions_root)
        (reject_if (ltb max_block_size (block_size block)) (bad_structure block_too_large) (
          reject_if (ltb max_txs_per_block (length block.body.transactions))
            (bad_structure too_many_transactions)
            (reject_if (ltb 32 (length block.header.extra_data)) (bad_structure extra_data_too_long)
              on_transactions))))

  Verdict-cases : (v : Verdict) → (v ≡ accepted) ⊎ (e : ConsensusError) × (v ≡ rejected e)
  Verdict-cases accepted = inl refl
  Verdict-cases (rejected e) = inr (e, refl)

  validate_block-eq-verdict :
      (now : ℕ) (block_size : Block → ℕ) (block : Block) (parent : Option Block) (h : Hash256)
      → calculate_transactions_root sha3 block.body ≡ done h
      → validate_block sha3 verify_signature config now block_size block parent
        ≡ done (
            verdict h
              (validate_header sha3 now block.header (header_of parent))
              (validate_transactions sha3 verify_signature config block.body.transactions)
              block_size
              block)
  unfolding validate_block validate_body verify_structure
  validate_block-eq-verdict now block_size block parent h calculated =
      elim (Verdict-cases (validate_header sha3 now block.header (header_of parent))) [
        | inl linked ↦ rw (linked, calculated) (ground arith)
        | inr (e, fault) ↦ rw fault refl
      ]

  verdict_lem :
      (block_size : Block → ℕ) (block : Block) (h : Hash256) (on_header : Verdict)
      → calculate_transactions_root sha3 block.body ≡ done h
      → (verdict h on_header
            (validate_transactions sha3 verify_signature config block.body.transactions)
            block_size
            block
          ≡ accepted)
        ↔ (on_header ≡ accepted) × IsWellFormed block_size block
  verdict_lem block_size block h on_header calculated = ground (
    arith,
    calculated,
    validate_transactions_lem block.body.transactions,
    list_beq_iff h block.header.transactions_root,
  )

  -- The validation of a block does not panic, and it accepts exactly the blocks whose header is a
  -- genesis header without a parent or follows its parent, that are within the limits, whose header
  -- carries the Merkle root of the transactions, and whose transactions are all for this chain, at
  -- the minimum gas price or more, with gas, with a signature that verifies, and with a post-quantum
  -- signature where the chain asks for one.
  pub validate_block_iff :
      (now : ℕ) (block_size : Block → ℕ) (block : Block) (parent : Option Block)
      → (v : Verdict) × (validate_block sha3 verify_signature config now block_size block parent
          ≡ done v)
        × ((v ≡ accepted)
            ↔ IsLinked sha3 now block.header (header_of parent) × IsWellFormed block_size block)
  validate_block_iff now block_size block parent =
      let (h, calculated) = calculate_transactions_root_done sha3 block.body in
      let linked = validate_header-iff-IsLinked sha3 now block.header (header_of parent) in
      let decides =
        verdict_lem block_size block h (validate_header sha3 now block.header (header_of parent))
          calculated in
      (
        verdict h (validate_header sha3 now block.header (header_of parent))
            (validate_transactions sha3 verify_signature config block.body.transactions) block_size
            block,
        validate_block-eq-verdict now block_size block parent h calculated,
        ground (arith, linked, decides),
      )

  -- Whatever difficulty a block claims, as long as its serialized size stays the same, the
  -- validation gives the same verdict: it does not compare the difficulty with the parent's or with
  -- the one that the adjustment computes.
  pub difficulty_unchecked :
      (now : ℕ) (block_size : Block → ℕ) (block : Block) (parent : Option Block) (d : ℕ)
      → let claimed = record block { header = record block.header { difficulty = d } } in
        block_size claimed ≡ block_size block
        → validate_block sha3 verify_signature config now block_size claimed parent
          ≡ validate_block sha3 verify_signature config now block_size block parent
  difficulty_unchecked now block_size block parent d size =
      let (h, calculated) = calculate_transactions_root_done sha3 block.body in
      let claimed = record block { header = record block.header { difficulty = d } } in
      validate_block-eq-verdict now block_size claimed parent h calculated
      ∙ rw (header_difficulty sha3 now block.header (header_of parent) d, size) refl
      ∙ sym (validate_block-eq-verdict now block_size block parent h calculated)
