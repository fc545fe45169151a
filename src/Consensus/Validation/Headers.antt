-- ===== src/Consensus/Validation/Headers.antt =====
-- What an accepted header satisfies.
-- The code is crates/frychain-consensus/src/validation.rs.
use fry_chain.Prelude.{
  ℕ, ◌≤◌, ◌≡◌, ◌≢◌, ◌↔◌, true, Option, none, some, List, arith, length, list_beq_iff, nat_eq,
  list_eq, string_eq,
}
use fry_chain.Core.Hash.{Hash256, is_zero}
use fry_chain.Consensus.Validation.{
  validate_header, validate_genesis, validate_child, accepted, max_future_timestamp,
}
use fry_chain.Core.Block.{BlockHeader, header_hash}
use fry_chain.Words.{wrapping_add, u64_mod}
use fry_chain.Core.Address.{address_eq}

-- The rules for a header and its parent.
abbrev pub IsLinked : (List ℕ → Hash256) → ℕ → BlockHeader → Option BlockHeader → Type 0
IsLinked sha3 now header none = (header.height ≡ 0) × (is_zero header.parent_hash ≡ true)
IsLinked sha3 now header (some parent) =
    (header.height ≢ 0)
    × (header.height ≡ wrapping_add u64_mod parent.height 1)
    × (header.parent_hash ≡ header_hash sha3 parent)
    × (parent.timestamp ≤ header.timestamp)
    × (header.timestamp ≤ wrapping_add u64_mod now max_future_timestamp)
    × (header.gas_limit ≢ 0)
    × (header.gas_used ≤ header.gas_limit)
    × (length header.extra_data ≤ 32)

-- A header is accepted exactly if it is a genesis header without a parent and with a parent hash of
-- zeros, or a header that follows its parent: the next height, the parent's hash, a timestamp
-- between the parent's and fifteen minutes from now, gas used within a gas limit that is not zero,
-- and at most 32 bytes of extra data.
pub validate_header-iff-IsLinked :
    (sha3 : List ℕ → Hash256) (now : ℕ) (header : BlockHeader) (parent : Option BlockHeader)
    → (validate_header sha3 now header parent ≡ accepted) ↔ IsLinked sha3 now header parent
unfolding validate_header validate_genesis validate_child
validate_header-iff-IsLinked sha3 now header none = ground arith
validate_header-iff-IsLinked sha3 now header (some parent) =
    ground (arith, list_beq_iff header.parent_hash (header_hash sha3 parent))
