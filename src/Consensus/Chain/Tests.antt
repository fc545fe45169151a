-- ===== src/Consensus/Chain/Tests.antt =====
-- Concrete inputs at which the theorems about the chain are applied.
use fry_chain.Core.Hash.{zero_hash}
use fry_chain.Core.Config.{devnet}
use fry_chain.Core.State.{new_state}
use fry_chain.Storage.Toy.{
  Table, empty_table, memory_rocks, toy_hex, toy_codecs, toy_sha3, genesis_stored, genesis_block,
  child_block, child_stored, table_of,
}
use fry_chain.Storage.Chain.{put_block}
use fry_chain.Storage.Chain.Runs.{put_block_op, store_run}
use fry_chain.Consensus.Chain.{Env, ChainState}
use fry_chain.Consensus.Chain.Steps.{IsStored}
use fry_chain.Storage.{batch_put, contains, put, get, write_batch}
use fry_chain.Storage.Chain.{
  has_block as store_has_block, get_block as store_get_block, get_header, get_body,
  get_total_difficulty, get_block_meta, put_locations, set_latest_height,
}
use fry_chain.Consensus.Chain.{has_block}
use fry_chain.Core.Block.{
  verify_pow, new_header, new_stored, header_hash, header_bytes, verify_structure,
  calculate_transactions_root,
}
use fry_chain.Core.Hash.{meets_difficulty}
use fry_chain.Core.Difficulty.{to_target}
use fry_chain.Words.Bits.{leading_zeros, trailing_zeros}
use fry_chain.Consensus.Validation.{
  accepted, validate_block, validate_body, validate_child, validate_genesis, validate_header,
  validate_transaction, validate_transactions,
}
use fry_chain.Core.Merkle.{
  build, from_hashes, hash_pair, next_level, next_power_of_two, pad, power_from, root,
}
use fry_chain.Storage.Toy.{child_header}
use fry_chain.Storage.Toy.{
  toy_miner, no_body, memory_rocks-IsLawful, toy_codecs-AreCodecs, toy_hex_injective,
  toy_sha3_width,
}
use fry_chain.Storage.Chain.Frames.{put_block-SameBlock, get_stored_block-put_block}
use fry_chain.Storage.{StorageResult}
use fry_chain.Results.{good}
use fry_chain.Core.Block.{Block, BlockHeader, StoredBlock}
use fry_chain.Storage.Chain.{get_stored_block, get_hash_by_height}
use fry_chain.Consensus.Chain.{total_difficulty, hash_of_block}
use fry_chain.Consensus.Chain.Head.{import_block-head}
use fry_chain.Consensus.Chain.Evolution.{Evolves, import_block_ends}
use fry_chain.Consensus.Chain.Links.{IsChained, import_block-IsChained}
use fry_chain.Consensus.Chain.Forks.{side_block_overwrites}
use fry_chain.Prelude.{
  sym, ap, ◌∙◌, inl, inr, ◌⊎◌, ◌<◌, replicate, same, Bool-cases, arith, Option, none, ℕ, ◌≡◌, done,
  true, refl, false, some, [], ◌∷◌, nat_eq, list_eq, string_eq,
}
use fry_chain.Core.Address.{address_eq}
use fry_chain.Consensus.Chain.Import.{Imported, import_one, import_block, with_stored}

abbrev toy_env : Env
toy_env = record {
  R = memory_rocks;
  codecs = toy_codecs;
  hex = toy_hex;
  sha3 = toy_sha3;
  cryptonight = λ blob. zero_hash;
  verify_signature = λ s message. false;
  block_size = λ block. 500;
  config = devnet;
}

abbrev toy_clock : ℕ → ℕ
toy_clock rounds = 200

-- The store holds the genesis block.
abbrev genesis_table : Table
genesis_table = table_of (
    store_run memory_rocks toy_hex toy_codecs toy_sha3 (put_block_op genesis_stored ∷ [])
      empty_table)

-- The head is a block of total difficulty 9000, on another branch.
abbrev forked : ChainState toy_env
forked = record {
  store = genesis_table;
  head = some (record genesis_stored { total_difficulty = 9000 });
  pending_blocks = [];
  known_blocks = [];
  state = new_state;
}

abbrev child_table : Table
child_table =
    table_of (put_block toy_codecs toy_hex toy_sha3 memory_rocks genesis_table child_stored)

-- The child passes the checks of the validator.
child_accepted :
    validate_block toy_sha3 toy_env.verify_signature devnet 200 toy_env.block_size child_block
      (some genesis_block)
    ≡ done accepted
unfolding validate_block validate_body validate_child validate_genesis validate_header
    validate_transaction validate_transactions verify_structure calculate_transactions_root
    header_hash header_bytes build from_hashes hash_pair next_level next_power_of_two pad power_from
    root new_header to_target trailing_zeros meets_difficulty leading_zeros
child_accepted = refl

child_pow : verify_pow child_header zero_hash ≡ true
unfolding verify_pow meets_difficulty to_target leading_zeros trailing_zeros new_header
child_pow = refl

child-IsStored : IsStored toy_env 200 forked child_block zero_hash child_stored child_table
unfolding has_block store_has_block put_block new_stored new_header set_latest_height header_hash
    header_bytes store_get_block get_header get_body get_total_difficulty get_block_meta
    put_locations batch_put contains put get write_batch
child-IsStored = record {
  parent = genesis_block;
  parent_td = some 5000;
  fresh = refl;
  parent_found = refl;
  valid = child_accepted;
  work = child_pow;
  td_found = refl;
  weighed = refl;
  written = refl;
}

-- Only the genesis block is stored.
genesis_table-IsChained : IsChained toy_env genesis_table
unfolding put_block new_stored new_header header_hash header_bytes put_locations batch_put
    write_batch get_stored_block
genesis_table-IsChained k stored e =
    elim (Bool-cases (same (header_hash toy_sha3 genesis_stored.block.header) k)) [
      | inl eq ↦
          let self =
            get_stored_block-put_block toy_codecs toy_hex toy_sha3 memory_rocks
              memory_rocks-IsLawful toy_hex_injective toy_codecs-AreCodecs empty_table genesis_table
              genesis_stored k refl eq in
          let same_stored : genesis_stored ≡ stored =
            good_some genesis_stored stored (sym self ∙ e) in
          inl (ap (λ (s : StoredBlock). s.block.header.height) (sym same_stored))
      | inr ne ↦
          let frame =
            put_block-SameBlock toy_codecs toy_hex toy_sha3 memory_rocks memory_rocks-IsLawful
              toy_hex_injective empty_table genesis_table genesis_stored k refl ne in
          absurd (good_none stored (sym frame.stored ∙ e))
    ]
  where
    good_some :
        (a b : StoredBlock)
        → ◌≡◌ {A = StorageResult (Option StoredBlock)} (good (some a)) (good (some b))
        → a ≡ b
    good_some a b e = cc

    good_none :
        (b : StoredBlock)
        → ◌≡◌ {A = StorageResult (Option StoredBlock)} (good none) (good (some b))
        → ⊥
    good_none b e = cc

import_block-head_example :
    (r : Imported toy_env) × (import_block toy_env toy_clock 1 forked child_block zero_hash
      ≡ done r)
    × ((r.0.head ≡ forked.head) ⊎ (total_difficulty forked < total_difficulty r.0))
import_block-head_example = import_block-head toy_env toy_clock forked child_block zero_hash

import_block_ends_example :
    (r : Imported toy_env) × (import_block toy_env toy_clock 1 forked child_block zero_hash
      ≡ done r)
    × Evolves toy_env forked r.0
import_block_ends_example = import_block_ends toy_env toy_clock forked child_block zero_hash

import_block-IsChained_example :
    (r : Imported toy_env) × (import_block toy_env toy_clock 1 forked child_block zero_hash
      ≡ done r)
    × IsChained toy_env r.0.store
import_block-IsChained_example =
    import_block-IsChained toy_env memory_rocks-IsLawful toy_hex_injective toy_codecs-AreCodecs
      toy_clock forked child_block zero_hash genesis_table-IsChained

side_block_overwrites_example :
    (import_one toy_env 200 forked child_block zero_hash
      ≡ done (with_stored toy_env forked child_stored child_table, good true))
    × ((with_stored toy_env forked child_stored child_table).head ≡ forked.head)
    × (get_hash_by_height toy_codecs toy_hex toy_sha3 memory_rocks child_table 1
        ≡ good (some (hash_of_block toy_env child_block)))
unfolding new_header new_stored total_difficulty
side_block_overwrites_example =
    side_block_overwrites toy_env memory_rocks-IsLawful toy_sha3_width 200 forked child_block
      zero_hash child_stored child_table child-IsStored (omega arith)

-- Two blocks on a parent that is not stored.
abbrev orphan_header : ℕ → BlockHeader
orphan_header difficulty = new_header 220 7 (replicate 32 9) toy_miner difficulty

abbrev orphan : ℕ → Block
orphan difficulty = record { header = orphan_header difficulty; body = no_body }
