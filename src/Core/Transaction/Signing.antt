-- ===== src/Core/Transaction/Signing.antt =====
-- What the hash of a transaction commits to.
-- The code is crates/frychain-core/src/transaction.rs.
use fry_chain.Words.Bytes.{le_bytes, length-le_bytes, le_bytes_injective}
use fry_chain.Prelude.{
  ℕ, ◌^◌, ◌<◌, ◌≡◌, refl, ap, arith, length, ◌%◌, sym, ◌∙◌, List, [], ◌∷◌, ◌++◌, append_injective,
  ◌≢◌,
}
use fry_chain.Core.Address.{AddressType}
use fry_chain.Core.Transaction.{
  Transaction, signing_bytes, type_id, TransactionType, transaction_hash,
}
use fry_chain.Words.{u128_mod, u64_mod}
use fry_chain.Core.Hash.{Hash256}

-- The fields are in the range of their machine integers, the addresses have 32 bytes, and the payload
-- is shorter than its length field can count.
pub record IsValid (t : Transaction) : Type 0 where
  pub sender_width : length t.sender.bytes ≡ 32
  pub recipient_width : length t.recipient.bytes ≡ 32
  pub value_fits : t.value < u128_mod
  pub nonce_fits : t.nonce < u64_mod
  pub gas_limit_fits : t.gas_limit < u64_mod
  pub gas_price_fits : t.gas_price < u128_mod
  pub payload_fits : length t.payload < 2 ^ 32
  pub chain_id_fits : t.chain_id < u64_mod

number :
    (k a b : ℕ) {s t : List ℕ}
    → a < 256 ^ k
    → b < 256 ^ k
    → le_bytes k a ++ s ≡ le_bytes k b ++ t
    → (a ≡ b) × (s ≡ t)
number k a b h l e =
    let (head, rest) =
      append_injective (le_bytes k a) (le_bytes k b) _ _
        (length-le_bytes k a ∙ sym (length-le_bytes k b)) e in
    (le_bytes_injective k a b h l head, rest)

type_id_injective : (a b : TransactionType) → type_id a ≡ type_id b → a ≡ b
unfolding type_id
type_id_injective a b e = ground arith

-- Two transactions whose fields are in the range of their machine integers, whose addresses have 32
-- bytes and whose payloads are shorter than 2 ^ 32 bytes agree in every field but the types of the
-- two addresses if their signing messages are equal.
pub signing_bytes_injective :
    (t u : Transaction)
    → IsValid t
    → IsValid u
    → signing_bytes t ≡ signing_bytes u
    → (t.tx_type ≡ u.tx_type)
      × (t.sender.bytes ≡ u.sender.bytes)
      × (t.recipient.bytes ≡ u.recipient.bytes)
      × (t.value ≡ u.value)
      × (t.nonce ≡ u.nonce)
      × (t.gas_limit ≡ u.gas_limit)
      × (t.gas_price ≡ u.gas_price)
      × (t.payload ≡ u.payload)
      × (t.chain_id ≡ u.chain_id)
unfolding signing_bytes
signing_bytes_injective t u v w e =
    let (kind, e1) =
      append_injective (type_id t.tx_type ∷ []) (type_id u.tx_type ∷ []) _ _ refl e in
    let (from, e2) = append_injective t.sender.bytes u.sender.bytes _ _ (cc) e1 in
    let (to, e3) = append_injective t.recipient.bytes u.recipient.bytes _ _ (cc) e2 in
    let (value, e4) = number 16 t.value u.value v.value_fits w.value_fits e3 in
    let (nonce, e5) = number 8 t.nonce u.nonce v.nonce_fits w.nonce_fits e4 in
    let (gas_limit, e6) = number 8 t.gas_limit u.gas_limit v.gas_limit_fits w.gas_limit_fits e5 in
    let (gas_price, e7) = number 16 t.gas_price u.gas_price v.gas_price_fits w.gas_price_fits e6 in
    let (size, e8) =
      number 4 (length t.payload % 2 ^ 32) (length u.payload % 2 ^ 32) (omega arith) (omega arith)
        e7 in
    let (payload, e9) =
      append_injective t.payload u.payload _ _ (omega (arith, size, v.payload_fits, w.payload_fits))
        e8 in
    let (chain_id, e10) = number 8 t.chain_id u.chain_id v.chain_id_fits w.chain_id_fits e9 in
    (
      type_id_injective t.tx_type u.tx_type (cc),
      from,
      to,
      value,
      nonce,
      gas_limit,
      gas_price,
      payload,
      chain_id,
    )

-- For every transaction there is another with a different recipient and the same hash, so that a
-- signature of the one is a signature of the other: the recipient's type is not hashed.
pub hash_ignores_address_type :
    (sha3 : List ℕ → Hash256) (t : Transaction) (kind : AddressType)
    → kind ≢ t.recipient.addr_type
    → let other = record t { recipient = record t.recipient { addr_type = kind } } in
      (other.recipient ≢ t.recipient) × (transaction_hash sha3 other ≡ transaction_hash sha3 t)
unfolding transaction_hash signing_bytes
hash_ignores_address_type sha3 t kind ne = (λ e. ne (ap (λ a. a.addr_type) e), refl)
