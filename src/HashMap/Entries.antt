-- ===== src/HashMap/Entries.antt =====
-- A predicate on every entry of a map.
use fry_chain.HashMap.{HashMap, lookup, erase, insert}
use fry_chain.Prelude.{◌≡◌, subst, inl, inr, some, [], ◌∷◌, Bool-cases, same, Eq}

abbrev pub AllEntries {ℓ κ} : {K : Type ℓ} {V : Type κ} → (K → V → Type 0) → HashMap K V → Type 0
AllEntries P [] = Unit
AllEntries P ((k, v) ∷ m) = P k v × AllEntries P m

module _ {ℓ κ} {K : Type ℓ} {V : Type κ} ⦃e : Eq K⦄ (P : K → V → Type 0) where
  pub AllEntries-lookup :
      (k : K) {v : V} (m : HashMap K V) → AllEntries P m → lookup k m ≡ some v → P k v
  AllEntries-lookup k [] h l = cc
  AllEntries-lookup k {v} ((j, u) ∷ m) h l = elim (Bool-cases (same j k)) [
    | inl t ↦
        let same_value : u ≡ v = cc (rw t at l) in
        subst (λ w. P k w) same_value (subst (λ i. P i u) ((e.beq_iff j k).0 t) h.0)
    | inr f ↦ AllEntries-lookup k m h.1 (rw f at l)
  ]

  pub AllEntries-erase : (k : K) (m : HashMap K V) → AllEntries P m → AllEntries P (erase k m)
  AllEntries-erase k [] h = tt
  AllEntries-erase k ((j, v) ∷ m) h = elim (Bool-cases (same j k)) [
    | inl t ↦ rw t (AllEntries-erase k m h.1)
    | inr f ↦ rw f (h.0, AllEntries-erase k m h.1)
  ]

  pub AllEntries-insert :
      (k : K) (v : V) (m : HashMap K V) → P k v → AllEntries P m → AllEntries P (insert k v m)
  AllEntries-insert k v m p h = (p, AllEntries-erase k m h)
