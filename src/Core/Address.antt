-- ===== src/Core/Address.antt =====
-- crates/frychain-core/src/address.rs: a typed 32-byte address, and the derived addresses. SHA3-256
-- is not code of the repository: it is the argument `sha3`.
use fry_chain.Words.Bytes.{le_bytes}
use fry_chain.Core.Hash.{is_zero}
use fry_chain.Prelude.{
  ℕ, ◌≡◌, ◌↔◌, Bool, true, false, ◌&&◌, List, ◌++◌, arith, replicate, list_beq, list_beq_iff, Eq,
  nat_eq, list_eq, string_eq,
}

pub data AddressType : Type 0 where
  standard contract device system : AddressType

pub record Address : Type 0 where
  pub addr_type : AddressType
  pub bytes : List ℕ

-- `#[derive(PartialEq)]`
abbrev pub type_eq : AddressType → AddressType → Bool
type_eq standard standard = true
type_eq contract contract = true
type_eq device device = true
type_eq system system = true
type_eq _ _ = false

abbrev pub address_beq : Address → Address → Bool
address_beq a b = type_eq a.addr_type b.addr_type && list_beq a.bytes b.bytes

type_eq_iff : (a b : AddressType) → (type_eq a b ≡ true) ↔ (a ≡ b)
type_eq_iff a b = ground arith

pub address_beq_iff : (a b : Address) → (address_beq a b ≡ true) ↔ (a ≡ b)
address_beq_iff a b =
    ground (arith, type_eq_iff a.addr_type b.addr_type, list_beq_iff a.bytes b.bytes)

instance abbrev pub address_eq : Eq Address
address_eq = record { beq = address_beq; beq_iff = address_beq_iff }

abbrev pub zero_address : Address
zero_address = record { addr_type = standard; bytes = replicate 32 0 }

unfoldable pub is_zero_address : Address → Bool
is_zero_address a = is_zero a.bytes

module _ (sha3 : List ℕ → List ℕ) where
  unfoldable pub from_public_key : List ℕ → Address
  from_public_key pubkey = record { addr_type = standard; bytes = sha3 pubkey }

  unfoldable pub contract_address : Address → ℕ → Address
  contract_address creator nonce = record {
    addr_type = contract;
    bytes = sha3 (creator.bytes ++ le_bytes 8 nonce);
  }
