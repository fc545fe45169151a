-- ===== src/Consensus/Validation.antt =====
-- crates/frychain-consensus/src/validation.rs: the checks of a header, of a transaction and of a
-- whole block. SHA3-256, the clock, the size of a block's bincode form and the verification of
-- signatures (of crates/frychain-crypto) are arguments.
pub mod Headers
pub mod Blocks
use fry_chain.Storage.{StorageError}
use fry_chain.Prelude.{
  ℕ, zero, ◌*◌, String, Bool, not, ◌&&◌, Option, none, some, List, [], ◌∷◌, map, ltb, ◌==◌,
  if◌then◌else◌, and_then, Outcome, done, length, same, nat_eq, list_eq, string_eq,
}
use fry_chain.Core.Block.{
  StructureError, BlockHeader, header_hash, Block, max_block_size, max_txs_per_block,
  calculate_transactions_root, verify_structure,
}
use fry_chain.Core.Hash.{Hash256, is_zero}
use fry_chain.Core.Transaction.{Signature, transaction_hash, SignedTransaction, is_post_quantum}
use fry_chain.Words.{wrapping_add, u64_mod}
use fry_chain.Core.Config.{ChainConfig}
use fry_chain.Core.Address.{address_eq}

-- `ConsensusError`, for the errors of this module and of the chain. The numbers in the messages are left out.
pub data ConsensusError : Type 0 where
  invalid_block : String → ConsensusError
  bad_structure : StructureError → ConsensusError
  invalid_proof_of_work invalid_difficulty invalid_parent : ConsensusError
  block_too_old block_from_future : ConsensusError
  storage_error : StorageError → ConsensusError

-- `ConsensusResult<()>`
pub data Verdict : Type 0 where
  accepted : Verdict
  rejected : ConsensusError → Verdict

-- The `?` operator.
abbrev pub then_check : Verdict → Verdict → Verdict
then_check accepted next = next
then_check (rejected e) next = rejected e

-- `if condition { return Err(e); }`
abbrev pub reject_if : Bool → ConsensusError → Verdict → Verdict
reject_if condition e next = if condition then rejected e else next

-- `parent.map(|p| &p.header)`
abbrev pub header_of : Option Block → Option BlockHeader
header_of none = none
header_of (some b) = some b.header

abbrev pub max_future_timestamp : ℕ
max_future_timestamp = 15 * 60

-- What follows a check that may end the function with its error.
abbrev pub after_check : Verdict → Outcome Verdict → Outcome Verdict
after_check accepted next = next
after_check (rejected e) next = done (rejected e)

abbrev pub after_structure : Outcome Verdict → Option StructureError → Outcome Verdict
after_structure next none = next
after_structure next (some e) = done (rejected (bad_structure e))

module _ (sha3 : List ℕ → Hash256) (now : ℕ) where
  unfoldable pub validate_genesis : BlockHeader → Option BlockHeader → Verdict
  validate_genesis header (some parent) = rejected invalid_parent
  validate_genesis header none =
      reject_if (not (is_zero header.parent_hash))
        (invalid_block "Genesis parent hash must be zero") accepted

  unfoldable pub validate_child : BlockHeader → BlockHeader → Verdict
  unfolding header_hash
  validate_child header parent =
      reject_if (not (header.height == wrapping_add u64_mod parent.height 1))
        (invalid_block "Invalid height")
        (reject_if (not (same header.parent_hash (header_hash sha3 parent))) invalid_parent (
          reject_if (ltb (wrapping_add u64_mod now max_future_timestamp) header.timestamp)
            block_from_future
            (reject_if (ltb header.timestamp parent.timestamp) block_too_old (
              reject_if (header.gas_limit == 0) (invalid_block "Gas limit cannot be zero") (
                reject_if (ltb header.gas_limit header.gas_used)
                  (invalid_block "Gas used exceeds gas limit")
                  (reject_if (ltb 32 (length header.extra_data))
                    (invalid_block "Extra data too long") accepted))))))

  unfoldable pub validate_header : BlockHeader → Option BlockHeader → Verdict
  unfolding validate_genesis validate_child
  validate_header header parent =
      if header.height == 0
      then validate_genesis header parent
      else elim parent [ none ↦ rejected invalid_parent | some p ↦ validate_child header p ]

module _ (sha3 : List ℕ → Hash256) (verify_signature : Signature → List ℕ → Bool)
    (config : ChainConfig) where
  unfoldable pub validate_transaction : SignedTransaction → Verdict
  unfolding transaction_hash is_post_quantum
  validate_transaction tx =
      reject_if (not (tx.transaction.chain_id == config.chain_id))
        (invalid_block "Invalid chain ID")
        (reject_if (ltb tx.transaction.gas_price config.min_gas_price)
          (invalid_block "Gas price too low")
          (reject_if (tx.transaction.gas_limit == 0) (invalid_block "Gas limit cannot be zero") (
            reject_if (not (verify_signature tx.signature (transaction_hash sha3 tx.transaction)))
              (invalid_block "Invalid transaction signature")
              (reject_if (config.post_quantum_only && not (is_post_quantum tx.signature))
                (invalid_block "Non-post-quantum signature not allowed") accepted))))

  -- `for tx in block.transactions()`
  unfoldable pub validate_transactions : List SignedTransaction → Verdict
  validate_transactions [] = accepted
  validate_transactions (tx ∷ txs) =
      then_check (validate_transaction tx) (validate_transactions txs)

  -- The checks after those of the header and of the structure.
  unfoldable pub validate_body : (Block → ℕ) → Block → Outcome Verdict
  unfolding validate_transactions
  validate_body block_size block =
      if ltb max_block_size (block_size block)
      then done (rejected (invalid_block "Block too large"))
      else if ltb max_txs_per_block (length block.body.transactions)
      then done (rejected (invalid_block "Too many transactions"))
      else after_check (validate_transactions block.body.transactions) (
          and_then (calculate_transactions_root sha3 block.body) (λ calculated. done (
            reject_if (not (same calculated block.header.transactions_root))
              (invalid_block "Transactions root mismatch") accepted)))

  unfoldable pub validate_block : ℕ → (Block → ℕ) → Block → Option Block → Outcome Verdict
  unfolding validate_body validate_header
  validate_block now block_size block parent =
      after_check (validate_header sha3 now block.header (header_of parent)) (
        and_then (verify_structure sha3 block_size block)
          (after_structure (validate_body block_size block)))
