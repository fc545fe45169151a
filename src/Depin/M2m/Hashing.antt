-- ===== src/Depin/M2m/Hashing.antt =====
-- What the hash of a transaction between devices does not tell apart.
-- The code is crates/frychain-depin/src/m2m.rs.
use fry_chain.Depin.Did.{DeviceDid}
use fry_chain.Depin.M2m.{target_bytes, type_byte, M2mTransaction, hashed_bytes, m2m_hash, type_byte}
use fry_chain.Prelude.{
  ℕ, ◌^◌, ◌≤◌, ◌<◌, String, ◌≡◌, refl, sym, ap, ◌∙◌, subst, none, some, List, [], ◌∷◌, ◌++◌,
  append_assoc, arith, length, take, drop, take-append-drop, length-take, length-drop, All,
  All-take, All-drop,
}
use fry_chain.Words.Bytes.{from_le, le_bytes, le_bytes-from_le, from_le_bound}
use fry_chain.Core.Hash.{Hash256}
use fry_chain.Words.{u64_mod}

-- The broadcast that a transaction to a device of this text can pass for: the text is read as the
-- nonce, the timestamp and the start of the payload.
abbrev as_broadcast : List ℕ → M2mTransaction → M2mTransaction
as_broadcast text tx = record tx {
  to_device = none;
  nonce = from_le (take 8 text);
  timestamp = from_le (take 8 (drop 8 text));
  payload =
      drop 8 (drop 8 text) ++ (le_bytes 8 tx.nonce ++ (le_bytes 8 tx.timestamp ++ tx.payload));
}

-- Eight bytes are a number of 64 bits.
first_number :
    (text : List ℕ)
    → 8 ≤ length text
    → All (λ b. b < 256) text
    → (le_bytes 8 (from_le (take 8 text)) ++ drop 8 text ≡ text) × (from_le (take 8 text) < u64_mod)
first_number text long bytes =
    let n : length (take 8 text) ≡ 8 = omega (arith, length-take 8 text) in
    let small = All-take (λ b. b < 256) 8 text bytes in
    (
      ap (λ l. l ++ drop 8 text)
            (subst (λ k. le_bytes k (from_le (take 8 text)) ≡ take 8 text) n
              (le_bytes-from_le (take 8 text) small))
          ∙ take-append-drop 8 text,
      subst (λ k. from_le (take 8 text) < 256 ^ k) n (from_le_bound (take 8 text) small),
    )

regroup :
    (a b c d e f g : List ℕ)
    → a ++ (b ++ ((c ++ (d ++ (e ++ f))) ++ g)) ≡ (a ++ (b ++ c)) ++ (d ++ (e ++ (f ++ g)))
regroup a b c d e f g = simp append_assoc

module _ (utf8 : String → List ℕ) (sha3 : List ℕ → Hash256) where
  -- For every transaction to a device whose identifier has a text of at least 16 bytes there is a
  -- broadcast from the same device, with the same signature, a nonce and a timestamp of 64 bits, and
  -- the same hash, whatever the hash function: the end of the target is not marked in the hashed bytes.
  pub hash_ignores_target :
      (tx : M2mTransaction) (to_device : DeviceDid)
      → tx.to_device ≡ some to_device
      → 16 ≤ length (utf8 to_device.did)
      → All (λ b. b < 256) (utf8 to_device.did)
      → (broadcast : M2mTransaction) × (broadcast.to_device ≡ none)
        × (broadcast.from_device ≡ tx.from_device)
        × (broadcast.signature ≡ tx.signature)
        × (broadcast.nonce < u64_mod)
        × (broadcast.timestamp < u64_mod)
        × (m2m_hash utf8 sha3 broadcast ≡ m2m_hash utf8 sha3 tx)
  unfolding m2m_hash hashed_bytes
  hash_ignores_target tx to_device target long bytes =
      let text = utf8 to_device.did in
      let (first, small) = first_number text (omega (arith, long)) bytes in
      let (second, small') =
        first_number (drop 8 text) (omega (arith, long, length-drop 8 text))
          (All-drop (λ b. b < 256) 8 text bytes) in
      let whole : le_bytes 8 (from_le (take 8 text))
            ++ (le_bytes 8 (from_le (take 8 (drop 8 text))) ++ drop 8 (drop 8 text))
          ≡ text =
        ap (λ l. le_bytes 8 (from_le (take 8 text)) ++ l) second ∙ first in
      (
        as_broadcast text tx,
        refl,
        refl,
        refl,
        small,
        small',
        ap (λ l. sha3 (type_byte tx.tx_type ∷ utf8 tx.from_device.did ++ l))
              (regroup (le_bytes 8 (from_le (take 8 text)))
                  (le_bytes 8 (from_le (take 8 (drop 8 text)))) (drop 8 (drop 8 text))
                  (le_bytes 8 tx.nonce) (le_bytes 8 tx.timestamp) tx.payload
                  (le_bytes 16 tx.value ++ [])
                ∙ ap
                    (λ l.
                      l
                      ++ (le_bytes 8 tx.nonce
                          ++ (le_bytes 8 tx.timestamp
                              ++ (tx.payload ++ (le_bytes 16 tx.value ++ [])))))
                    whole)
            ∙ ap
                (λ d. sha3 (
                  type_byte tx.tx_type ∷ utf8 tx.from_device.did
                  ++ (target_bytes utf8 sha3 d
                      ++ (le_bytes 8 tx.nonce
                          ++ (le_bytes 8 tx.timestamp
                              ++ (tx.payload ++ (le_bytes 16 tx.value ++ [])))))))
                (sym target),
      )
