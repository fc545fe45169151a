-- ===== src/Storage/Chain/Effects.antt =====
-- What the batch of a block does to each key, and which keys are the same.
-- The code is crates/frychain-storage/src/chain.rs.
use fry_chain.Results.{good}
use fry_chain.Words.{u64_mod}
use fry_chain.Core.Hash.{Hash256}
use fry_chain.Core.Block.{StoredBlock, header_hash}
use fry_chain.Storage.{
  replayed, write_op, headers_cf, bodies_cf, height_to_hash_cf, meta_cf, batch_put,
}
use fry_chain.Storage.Chain.{Codecs, block_ops, meta_key, height_key, meta_of}
use fry_chain.Storage.Chain.Reads.{Raw, stored_from}
use fry_chain.Storage.{transactions_cf, receipts_cf}
use fry_chain.Prelude.{
  ℕ, ◌<◌, ◌&&◌, ◌≡◌, some, List, map, same, nat_eq, list_eq, string_eq, if◌then◌else◌, arith, ◌==◌,
  refl, sym, ap, ◌∙◌, inl, inr, true, Bool-cases, list_beq_iff,
}
use fry_chain.Words.Bytes.{be_bytes, from_be-be_bytes, from_be}
use fry_chain.Storage.Chain.Spec.{AreCodecs}

-- What the batch of a block does to one key of each family.
module _ (codecs : Codecs) (hex : List ℕ → List ℕ) (sha3 : List ℕ → Hash256) (stored : StoredBlock)
    (hb bb mb key : List ℕ) (seen : Raw) where
  pub headers_after :
      replayed (map write_op (block_ops codecs hex sha3 stored hb bb mb)) headers_cf key seen
      ≡ (if same (header_hash sha3 stored.block.header) key then good (some hb) else seen)
  unfolding batch_put
  headers_after = ground arith

  pub bodies_after :
      replayed (map write_op (block_ops codecs hex sha3 stored hb bb mb)) bodies_cf key seen
      ≡ (if same (header_hash sha3 stored.block.header) key then good (some bb) else seen)
  unfolding batch_put
  bodies_after = ground arith

  pub meta_after :
      replayed (map write_op (block_ops codecs hex sha3 stored hb bb mb)) meta_cf key seen ≡ (
        if same (meta_key hex (header_hash sha3 stored.block.header)) key
        then good (some mb)
        else seen)
  unfolding batch_put
  meta_after = ground arith

  pub heights_after :
      replayed (map write_op (block_ops codecs hex sha3 stored hb bb mb)) height_to_hash_cf key seen
      ≡ (if stored.is_canonical && same (height_key stored.block.header.height) key
          then good (some (header_hash sha3 stored.block.header))
          else seen)
  unfolding batch_put
  heights_after = ground arith

  pub locations_after :
      replayed (map write_op (block_ops codecs hex sha3 stored hb bb mb)) transactions_cf key seen
      ≡ seen
  unfolding batch_put
  locations_after = ground arith

  pub receipts_after :
      replayed (map write_op (block_ops codecs hex sha3 stored hb bb mb)) receipts_cf key seen
      ≡ seen
  unfolding batch_put
  receipts_after = ground arith

be_bytes_injective : (a b : ℕ) → a < u64_mod → b < u64_mod → be_bytes 8 a ≡ be_bytes 8 b → a ≡ b
be_bytes_injective a b ha hb e =
    sym (from_be-be_bytes 8 a ha) ∙ ap from_be e ∙ from_be-be_bytes 8 b hb

pub same_height :
    (a b : ℕ) → a < u64_mod → b < u64_mod → same (height_key a) (height_key b) ≡ (a == b)
same_height a b ha hb = elim (Bool-cases (a == b)) [
  | inl eq ↦
      let e : a ≡ b = ground arith in
      (list_beq_iff (height_key a) (height_key b)).1 (ap height_key e) ∙ sym eq
  | inr ne ↦ elim (Bool-cases (same (height_key a) (height_key b))) [
    | inl eq ↦
        let e : a ≡ b =
          be_bytes_injective a b ha hb ((list_beq_iff (height_key a) (height_key b)).0 eq) in
        ground arith
    | inr other ↦ other ∙ sym ne
  ]
]

module _ (hex : List ℕ → List ℕ) (hex_injective : (a b : List ℕ) → hex a ≡ hex b → a ≡ b) where
  pub same-meta_key : (a b : Hash256) → same (meta_key hex a) (meta_key hex b) ≡ same a b
  same-meta_key a b = elim (Bool-cases (same a b)) [
    | inl eq ↦ (list_beq_iff (hex a) (hex b)).1 (ap hex ((list_beq_iff a b).0 eq)) ∙ sym eq
    | inr ne ↦ elim (Bool-cases (same (hex a) (hex b))) [
      | inl eq ↦
          let e : same a b ≡ true =
            (list_beq_iff a b).1 (hex_injective a b ((list_beq_iff (hex a) (hex b)).0 eq)) in
          absurd (cc)
      | inr other ↦ other ∙ sym ne
    ]
  ]

  module _ (codecs : Codecs) (are : AreCodecs codecs) (sha3 : List ℕ → Hash256) where
    pub stored_from_written :
        (stored : StoredBlock) (hb bb mb : List ℕ)
        → codecs.header.serialize stored.block.header ≡ some hb
        → codecs.body.serialize stored.block.body ≡ some bb
        → codecs.meta.serialize (meta_of codecs hex sha3 stored) ≡ some mb
        → stored_from codecs hex sha3 (good (some hb)) (good (some bb)) (good (some mb))
          ≡ good (some stored)
    stored_from_written stored hb bb mb h b m =
        rw (are.header.round _ hb h, are.body.round _ bb b, are.meta.round _ mb m) refl
