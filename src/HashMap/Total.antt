-- ===== src/HashMap/Total.antt =====
-- The sum of a measure over the values of a map, under each change of the map.
use fry_chain.Prelude.{Eq, ℕ, ◌+◌, ◌≡◌, refl, none, some, [], ◌∷◌, arith}
use fry_chain.HashMap.{HashMap, lookup, erase, IsMap}

module _ {ℓ κ} {K : Type ℓ} {V : Type κ} where
  abbrev pub total : (V → ℕ) → HashMap K V → ℕ
  total f [] = 0
  total f ((k, v) ∷ m) = f v + total f m

module _ {ℓ κ} {K : Type ℓ} {V : Type κ} ⦃e : Eq K⦄ (f : V → ℕ) where
  pub erase_absent : (k : K) (m : HashMap K V) → lookup k m ≡ none → erase k m ≡ m
  erase_absent k [] h = refl
  erase_absent k ((i, v) ∷ m) h = ground (arith, erase_absent k m)

  pub total-erase-none :
      (k : K) (m : HashMap K V) → lookup k m ≡ none → total f (erase k m) ≡ total f m
  total-erase-none k [] h = refl
  total-erase-none k ((i, v) ∷ m) h = ground (arith, total-erase-none k m)

  pub total-erase-some :
      (k : K) (u : V) (m : HashMap K V)
      → IsMap m
      → lookup k m ≡ some u
      → total f (erase k m) + f u ≡ total f m
  total-erase-some k u [] d h = ground arith
  total-erase-some k u ((i, v) ∷ m) d h =
      ground (arith, total-erase-some k u m d.1, total-erase-none k m, e.beq_iff i k)
