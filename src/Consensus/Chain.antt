-- ===== src/Consensus/Chain.antt =====
-- crates/frychain-consensus/src/chain.rs: the chain of blocks, its head, and the import of blocks. The
-- database, bincode, SHA3-256 and the text of a hash are those of the chain store; CryptoNight and the
-- verification of signatures (of crates/frychain-crypto) are arguments.
pub mod Import
pub mod Steps
pub mod Evolution
pub mod Head
pub mod Links
pub mod Forks
mod Tests
use fry_chain.HashMap.{HashMap, lookup, insert, erase, contains_key}
use fry_chain.Words.{u128_mod, wrapping_add}
use fry_chain.Core.Address.{Address}
use fry_chain.Core.Amount.{BlockHeight, TokenAmount}
use fry_chain.Core.Config.{ChainConfig, GenesisAllocation, block_reward_at_height}
use fry_chain.Core.Difficulty.{to_target}
use fry_chain.Core.Hash.{Hash256, meets_difficulty}
use fry_chain.Core.State.{AccountState, new_state, with_balance, set_account, set_code}
use fry_chain.Core.Transaction.{Signature}
use fry_chain.Core.Block.{
  Block, BlockHeader, StoredBlock, new_stored, genesis, header_hash, mining_blob, verify_pow,
}
use fry_chain.Results.{Result, good, bad}
use fry_chain.Storage.{good_or_false, Rocks, StorageError, StorageResult}
use fry_chain.Storage.Chain.{
  has_block as store_has_block, get_block as store_get_block, Codecs, put_block, get_stored_block,
  get_hash_by_height, get_latest_height, set_latest_height, get_genesis_hash, get_total_difficulty,
}
use fry_chain.Consensus.Validation.{
  ConsensusError, invalid_block, invalid_proof_of_work, storage_error, Verdict, accepted, rejected,
  validate_block,
}
use fry_chain.Prelude.{
  ℕ, zero, suc, Bool, true, false, ◌||◌, Option, none, some, List, [], ◌∷◌, ltb, if◌then◌else◌,
  Outcome, done, panic, and_then, nat_eq, list_eq, string_eq,
}

-- What the chain runs on.
pub record Env : Type 1 where
  pub R : Rocks
  pub codecs : Codecs
  pub hex : List ℕ → List ℕ
  pub sha3 : List ℕ → Hash256
  pub cryptonight : List ℕ → Hash256
  pub verify_signature : Signature → List ℕ → Bool
  pub block_size : Block → ℕ
  pub config : ChainConfig

-- `Blockchain`, with the database in place of the stores and without the validator and the difficulty
-- adjuster, which keep no state.
pub record Blockchain (Db : Type 0) : Type 0 where
  pub store : Db
  pub head : Option StoredBlock
  pub pending_blocks : HashMap Hash256 Block
  pub known_blocks : HashMap Hash256 (Unit {0})
  pub state : AccountState

-- `self.head.read().as_ref().map(|h| h.total_difficulty).unwrap_or(0)`
abbrev pub difficulty_of_head : Option StoredBlock → ℕ
difficulty_of_head none = 0
difficulty_of_head (some stored) = stored.total_difficulty

unfoldable pub total_difficulty : {Db : Type 0} → Blockchain Db → ℕ
total_difficulty chain = difficulty_of_head chain.head

abbrev height_of_head : Option StoredBlock → BlockHeight
height_of_head none = 0
height_of_head (some stored) = stored.block.header.height

unfoldable pub chain_height : {Db : Type 0} → Blockchain Db → BlockHeight
chain_height chain = height_of_head chain.head

abbrev difficulty_or : ℕ → Option StoredBlock → ℕ
difficulty_or initial none = initial
difficulty_or initial (some stored) = stored.block.header.difficulty

-- `unwrap_or(0)`
abbrev pub some_or_zero : Option ℕ → ℕ
some_or_zero none = 0
some_or_zero (some n) = n

-- "FryChain Genesis Block"
abbrev genesis_message : List ℕ
genesis_message =
    b'F' ∷ b'r' ∷ b'y' ∷ b'C' ∷ b'h' ∷ b'a' ∷ b'i' ∷ b'n' ∷ b' ' ∷ b'G' ∷ b'e' ∷ b'n' ∷ b'e' ∷ b's'
    ∷ b'i' ∷ b's' ∷ b' ' ∷ b'B' ∷ b'l' ∷ b'o' ∷ b'c' ∷ b'k' ∷ []

module _ (env : Env) where
  open env use {R, codecs, hex, sha3, cryptonight, verify_signature, block_size, config}

  abbrev pub ChainState : Type 0
  ChainState = Blockchain R.Db

  abbrev pub hash_of_block : Block → Hash256
  hash_of_block block = header_hash sha3 block.header

  unfoldable pub chain_difficulty : ChainState → ℕ
  chain_difficulty chain = difficulty_or config.initial_difficulty chain.head

  unfoldable pub block_reward : ChainState → Option TokenAmount
  unfolding chain_height
  block_reward chain = block_reward_at_height config (chain_height chain)

  -- `load_head`: the stored block at the latest height.
  unfoldable pub load_head : ChainState → ChainState × Result StorageError (Unit {0})
  load_head chain = elim (get_latest_height codecs hex sha3 R chain.store) [
    | bad e ↦ (chain, bad e)
    | good none ↦ (chain, good tt)
    | good (some height) ↦ elim (get_hash_by_height codecs hex sha3 R chain.store height) [
      | bad e ↦ (chain, bad e)
      | good none ↦ (chain, good tt)
      | good (some hash) ↦ elim (get_stored_block codecs hex sha3 R chain.store hash) [
        | bad e ↦ (chain, bad e)
        | good none ↦ (chain, good tt)
        | good (some stored) ↦ (record chain { head = some stored }, good tt)
      ]
    ]
  ]

  -- `Blockchain::new`
  unfoldable pub new_chain : R.Db → ChainState × Result StorageError (Unit {0})
  unfolding load_head
  new_chain db =
      load_head record {
        store = db;
        head = none;
        pending_blocks = [];
        known_blocks = [];
        state = new_state;
      }

  -- `known_blocks.contains_key(hash) || chain_store.has_block(hash).unwrap_or(false)`
  unfoldable pub has_block : ChainState → Hash256 → Bool
  has_block chain hash =
      contains_key hash chain.known_blocks
      || good_or_false (store_has_block codecs hex sha3 R chain.store hash)

  -- The loop of `init_genesis` over the allocations.
  abbrev pub allocate : List GenesisAllocation → AccountState → AccountState
  allocate [] state = state
  allocate (alloc ∷ allocs) state =
      let funded = set_account state (with_balance alloc.address alloc.balance) in
      allocate allocs
        (elim alloc.code [ none ↦ funded | some code ↦ set_code sha3 funded alloc.address code ])

  abbrev pub head_written :
      ChainState → StoredBlock → StorageResult R.Db → ChainState × Result ConsensusError (Unit {0})
  head_written chain stored (bad e) = (chain, bad (storage_error e))
  head_written chain stored (good db) = (record chain { store = db; head = some stored }, good tt)

  -- `set_latest_height`, then the new head.
  unfoldable pub set_head : ChainState → StoredBlock → ChainState × Result ConsensusError (Unit {0})
  set_head chain stored =
      head_written chain stored
        (set_latest_height codecs hex sha3 R chain.store stored.block.header.height)

  unfoldable pub init_genesis : ChainState → Address → ChainState × Result ConsensusError Block
  unfolding genesis new_stored set_head
  init_genesis chain miner = elim (get_genesis_hash codecs hex sha3 R chain.store) [
    | bad e ↦ (chain, bad (storage_error e))
    | good (some hash) ↦ (chain, bad (invalid_block "Genesis already exists"))
    | good none ↦
        let block = genesis genesis_message miner config.initial_difficulty in
        let funded : ChainState = record chain {
          state = allocate config.genesis_allocations chain.state;
        } in
        let stored = new_stored block (hash_of_block block) config.initial_difficulty in
        elim (put_block codecs hex sha3 R chain.store stored) [
          | bad e ↦ (funded, bad (storage_error e))
          | good db ↦
              let (chain', result) = set_head (record funded { store = db }) stored in
              elim result [ bad e ↦ (chain', bad e) | good _ ↦ (chain', good block) ]
        ]
  ]
