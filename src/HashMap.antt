-- ===== src/HashMap.antt =====
-- `std::collections::HashMap` (and `dashmap::DashMap`) as a list of entries with distinct keys.
-- The order of the entries is not observable in the source, so a new entry goes in front.
pub mod Laws
pub mod Total
pub mod Entries
use fry_chain.Prelude.{
  Eq, ◌≡◌, same, Bool, true, false, Option, none, some, List, [], ◌∷◌, ◌++◌, if◌then◌else◌, ◌++◌,
}

abbrev pub HashMap {ℓ κ} : Type ℓ → Type κ → Type (ℓ ⊔ κ)
HashMap K V = List (K × V)

module _ {ℓ κ} {K : Type ℓ} {V : Type κ} ⦃e : Eq K⦄ where
  abbrev pub lookup : K → HashMap K V → Option V
  lookup k [] = none
  lookup k ((j, v) ∷ m) = if same j k then some v else lookup k m

  abbrev pub contains_key : K → HashMap K V → Bool
  contains_key k m = elim (lookup k m) [ none ↦ false | some _ ↦ true ]

  abbrev pub erase : K → HashMap K V → HashMap K V
  erase k [] = []
  erase k ((j, v) ∷ m) = if same j k then erase k m else (j, v) ∷ erase k m

  abbrev pub insert : K → V → HashMap K V → HashMap K V
  insert k v m = (k, v) ∷ erase k m

  -- `get(k).cloned().unwrap_or(d)`
  abbrev pub lookup_or : V → K → HashMap K V → V
  lookup_or d k m = elim (lookup k m) [ none ↦ d | some v ↦ v ]

  -- `entry(k).or_default()` followed by a change of the entry
  abbrev pub alter : V → (V → V) → K → HashMap K V → HashMap K V
  alter d f k m = insert k (f (lookup_or d k m)) m

  -- No key is listed twice.
  abbrev pub IsMap : HashMap K V → Type 0
  IsMap [] = Unit
  IsMap ((k, v) ∷ m) = (contains_key k m ≡ false) × IsMap m

-- `entry(k).or_default().push(v)`
abbrev pub push_to {ℓ κ} :
    {K : Type ℓ} {V : Type κ} ⦃e : Eq K⦄ → K → V → HashMap K (List V) → HashMap K (List V)
push_to k v m = alter [] (λ vs. vs ++ v ∷ []) k m
