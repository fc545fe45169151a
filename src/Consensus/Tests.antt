-- ===== src/Consensus/Tests.antt =====
-- Concrete inputs at which the theorems about frychain-consensus are applied.
use fry_chain.Prelude.{
  ℕ, ◌%◌, ◌^◌, ◌≡◌, refl, ◌↔◌, Bool, some, List, [], ◌∷◌, done, length, replicate, same, nat_eq,
  list_eq, string_eq,
}
use fry_chain.Core.Hash.{Hash256, zero_hash}
use fry_chain.Core.Transaction.{Signature}
use fry_chain.Core.Address.{Address, standard, address_eq}
use fry_chain.Core.Block.{BlockHeader, Block, new_header, header_hash}
use fry_chain.Consensus.Validation.{validate_header, Verdict, validate_block, accepted}
use fry_chain.Core.Config.{devnet}
use fry_chain.Consensus.Validation.Headers.{IsLinked, validate_header-iff-IsLinked}
use fry_chain.Consensus.Validation.Blocks.{difficulty_unchecked, IsWellFormed, validate_block_iff}

abbrev toy_hash : List ℕ → Hash256
toy_hash x = replicate 32 (length x % 256)

-- A stand-in that accepts the signatures that name the message's length.
abbrev toy_signature : Signature → List ℕ → Bool
toy_signature s message = same s.sig_bytes (length message ∷ [])

abbrev miner : Address
miner = record { addr_type = standard; bytes = replicate 32 4 }

abbrev first_header : BlockHeader
first_header = new_header 100 0 zero_hash miner 1000

abbrev second_header : BlockHeader
second_header = new_header 160 1 (header_hash toy_hash first_header) miner 1000

abbrev first_block : Block
first_block = record { header = first_header; body = record { transactions = [] } }

abbrev second_block : Block
second_block = record { header = second_header; body = record { transactions = [] } }

validate_header-iff-IsLinked_example :
    (validate_header toy_hash 200 second_header (some first_header) ≡ accepted)
    ↔ IsLinked toy_hash 200 second_header (some first_header)
validate_header-iff-IsLinked_example =
    validate_header-iff-IsLinked toy_hash 200 second_header (some first_header)

validate_block_iff_example :
    (v : Verdict) × (validate_block toy_hash toy_signature devnet 200
        (λ _. 500)
        second_block
        (some first_block)
      ≡ done v)
    × ((v ≡ accepted)
        ↔ IsLinked toy_hash 200 second_header (some first_header)
          × IsWellFormed toy_hash toy_signature devnet (λ _. 500) second_block)
validate_block_iff_example =
    validate_block_iff toy_hash toy_signature devnet 200 (λ _. 500) second_block (some first_block)

difficulty_unchecked_example :
    validate_block toy_hash toy_signature devnet 200
      (λ _. 500)
      (record second_block { header = record second_header { difficulty = 2 ^ 127 } })
      (some first_block)
    ≡ validate_block toy_hash toy_signature devnet 200 (λ _. 500) second_block (some first_block)
difficulty_unchecked_example =
    difficulty_unchecked toy_hash toy_signature devnet 200 (λ _. 500) second_block
      (some first_block) (2 ^ 127) refl
