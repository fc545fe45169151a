-- ===== src/Storage/Paid.antt =====
-- A block with a transaction, its location and its receipt, and codecs for them.
use fry_chain.Core.Address.{address_beq_iff, address_eq}
use fry_chain.Core.Block.{BlockBody, StoredBlock, new_stored}
use fry_chain.Core.Hash.{zero_hash}
use fry_chain.Core.Transaction.{
  TransactionType, plain_transfer, Transaction, SignatureType, dilithium, Signature,
  SignedTransaction, new_transfer,
}
use fry_chain.Storage.Chain.{TxLocation, Codecs}
use fry_chain.Storage.Chain.Spec.{AreAllCodecs}
use fry_chain.Storage.Toy.{
  two_values, two_values-IsCodec, toy_codecs, same_header, same_header_sound, same_meta,
  same_meta_sound, genesis_header, child_header, no_body, toy_miner,
}
use fry_chain.Prelude.{
  ◌≡◌, refl, Bool, true, false, ◌&&◌, List, [], ◌∷◌, arith, ◌==◌, replicate, same, list_beq_iff,
  nat_eq, list_eq, string_eq,
}

-- Only transfers pass.
abbrev is_transfer : TransactionType → Bool
is_transfer plain_transfer = true
is_transfer _ = false

abbrev same_transaction : Transaction → Transaction → Bool
same_transaction a b =
    is_transfer a.tx_type
    && is_transfer b.tx_type
    && same a.sender b.sender
    && same a.recipient b.recipient
    && a.value == b.value
    && a.nonce == b.nonce
    && a.gas_limit == b.gas_limit
    && a.gas_price == b.gas_price
    && same a.payload b.payload
    && a.chain_id == b.chain_id

is_transfer_sound : (t : TransactionType) → is_transfer t ≡ true → t ≡ plain_transfer
is_transfer_sound t h = ground arith

same_transaction_sound : (a b : Transaction) → same_transaction a b ≡ true → a ≡ b
same_transaction_sound a b h = ground (
  arith,
  is_transfer_sound a.tx_type,
  is_transfer_sound b.tx_type,
  address_beq_iff a.sender b.sender,
  address_beq_iff a.recipient b.recipient,
  list_beq_iff a.payload b.payload,
)

-- Only Dilithium signatures pass.
abbrev is_dilithium : SignatureType → Bool
is_dilithium dilithium = true
is_dilithium _ = false

is_dilithium_sound : (t : SignatureType) → is_dilithium t ≡ true → t ≡ dilithium
is_dilithium_sound t h = ground arith

abbrev same_signature : Signature → Signature → Bool
same_signature a b =
    is_dilithium a.sig_type
    && is_dilithium b.sig_type
    && same a.sig_bytes b.sig_bytes
    && same a.public_key b.public_key

same_signature_sound : (a b : Signature) → same_signature a b ≡ true → a ≡ b
same_signature_sound a b h = ground (
  arith,
  is_dilithium_sound a.sig_type,
  is_dilithium_sound b.sig_type,
  list_beq_iff a.sig_bytes b.sig_bytes,
  list_beq_iff a.public_key b.public_key,
)

abbrev same_signed : SignedTransaction → SignedTransaction → Bool
same_signed a b =
    same_transaction a.transaction b.transaction && same_signature a.signature b.signature

and_true : (a b : Bool) → (a && b) ≡ true → (a ≡ true) × (b ≡ true)
and_true a b h = ground arith

same_signed_sound : (a b : SignedTransaction) → same_signed a b ≡ true → a ≡ b
same_signed_sound a b h =
    let (t, s) =
      and_true (same_transaction a.transaction b.transaction)
        (same_signature a.signature b.signature) h in
    λ i. record {
      transaction = same_transaction_sound a.transaction b.transaction t i;
      signature = same_signature_sound a.signature b.signature s i;
    }

abbrev same_all : List SignedTransaction → List SignedTransaction → Bool
same_all [] [] = true
same_all (a ∷ xs) (b ∷ ys) = same_signed a b && same_all xs ys
same_all _ _ = false

same_all_sound : (xs ys : List SignedTransaction) → same_all xs ys ≡ true → xs ≡ ys
same_all_sound [] [] h = refl
same_all_sound [] (b ∷ ys) h = cc
same_all_sound (a ∷ xs) [] h = cc
same_all_sound (a ∷ xs) (b ∷ ys) h =
    let (first, rest) = and_true (same_signed a b) (same_all xs ys) h in
    λ i. same_signed_sound a b first i ∷ same_all_sound xs ys rest i

abbrev same_body : BlockBody → BlockBody → Bool
same_body a b = same_all a.transactions b.transactions

same_body_sound : (a b : BlockBody) → same_body a b ≡ true → a ≡ b
same_body_sound a b h =
    λ i. record { transactions = same_all_sound a.transactions b.transactions h i }

abbrev same_location : TxLocation → TxLocation → Bool
same_location a b =
    same a.block_hash b.block_hash && a.block_height == b.block_height && a.tx_index == b.tx_index

same_location_sound : (a b : TxLocation) → same_location a b ≡ true → a ≡ b
same_location_sound a b h = ground (arith, list_beq_iff a.block_hash b.block_hash)

abbrev pub payment : SignedTransaction
payment = record {
  transaction = new_transfer toy_miner toy_miner 3 0 1 1;
  signature = record { sig_type = dilithium; sig_bytes = 8 ∷ []; public_key = 9 ∷ [] };
}

abbrev paid_body : BlockBody
paid_body = record { transactions = payment ∷ [] }

abbrev pub paid_stored : StoredBlock
paid_stored = new_stored (record { header = child_header; body = paid_body }) zero_hash 6000

abbrev payment_location : TxLocation
payment_location = record { block_hash = 1 ∷ replicate 31 1; block_height = 1; tx_index = 0 }

abbrev pub paid_codecs : Codecs
paid_codecs = record toy_codecs {
  body = two_values same_body no_body paid_body;
  location = two_values same_location payment_location payment_location;
}

pub paid_codecs-AreAllCodecs : AreAllCodecs paid_codecs
paid_codecs-AreAllCodecs = record {
  chain = record {
    header = two_values-IsCodec same_header genesis_header child_header same_header_sound;
    body = two_values-IsCodec same_body no_body paid_body same_body_sound;
    meta = two_values-IsCodec same_meta _ _ same_meta_sound;
  };
  location = two_values-IsCodec same_location payment_location payment_location same_location_sound;
  receipt = record { round = λ a bytes e. cc };
}
