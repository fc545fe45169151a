-- ===== src/HashMap/Laws.antt =====
-- What a lookup finds after each change of a map.
use fry_chain.Prelude.{
  Eq, same, same_refl, ◌≡◌, ◌≢◌, none, some, [], ◌∷◌, arith, if◌then◌else◌, ◌≤◌, ◌<◌, length, refl,
  sym, subst,
}
use fry_chain.HashMap.{HashMap, lookup, erase, insert, IsMap}

module _ {ℓ κ} {K : Type ℓ} {V : Type κ} ⦃e : Eq K⦄ where
  pub lookup-erase :
      (k j : K) (m : HashMap K V) → lookup j (erase k m) ≡ (if same k j then none else lookup j m)
  lookup-erase k j [] = ground arith
  lookup-erase k j ((i, v) ∷ m) =
      ground (arith, e.beq_iff i k, e.beq_iff i j, e.beq_iff k j, lookup-erase k j m)

  pub lookup-insert :
      (k j : K) (v : V) (m : HashMap K V)
      → lookup j (insert k v m) ≡ (if same k j then some v else lookup j m)
  lookup-insert k j v m = ground (arith, lookup-erase k j m)

  pub lookup-insert_self : (k : K) (v : V) (m : HashMap K V) → lookup k (insert k v m) ≡ some v
  lookup-insert_self k v m = ground (arith, same_refl k)

  pub lookup-insert_ne :
      (k j : K) (v : V) (m : HashMap K V) → k ≢ j → lookup j (insert k v m) ≡ lookup j m
  lookup-insert_ne k j v m h = ground (arith, lookup-insert k j v m, e.beq_iff k j)

  pub lookup-erase_self : (k : K) (m : HashMap K V) → lookup k (erase k m) ≡ none
  lookup-erase_self k m = ground (arith, lookup-erase k k m, same_refl k)

  pub lookup-erase_ne : (k j : K) (m : HashMap K V) → k ≢ j → lookup j (erase k m) ≡ lookup j m
  lookup-erase_ne k j m h = ground (arith, lookup-erase k j m, e.beq_iff k j)

  pub erase-IsMap : (k : K) (m : HashMap K V) → IsMap m → IsMap (erase k m)
  erase-IsMap k [] h = tt
  erase-IsMap k ((i, v) ∷ m) h = ground (arith, lookup-erase k i m, erase-IsMap k m h.1)

  pub insert-IsMap : (k : K) (v : V) (m : HashMap K V) → IsMap m → IsMap (insert k v m)
  insert-IsMap k v m h = ground (arith, lookup-erase_self k m, erase-IsMap k m h)

  -- Taking out an entry makes the list of entries shorter.
  pub length-erase : (k : K) (m : HashMap K V) → length (erase k m) ≤ length m
  length-erase k [] = omega arith
  length-erase k ((i, v) ∷ m) = ground (arith, length-erase k m)

  pub length-erase_found :
      (k : K) (v : V) (m : HashMap K V) → lookup k m ≡ some v → length (erase k m) < length m
  length-erase_found k v [] e = cc
  length-erase_found k v ((i, w) ∷ m) e = ground (arith, length-erase k m, length-erase_found k v m)

  erase-erase : (k : K) (m : HashMap K V) → erase k (erase k m) ≡ erase k m
  erase-erase k [] = refl
  erase-erase k ((i, v) ∷ m) = ground (arith, erase-erase k m)

  -- The second of two values for a key leaves no trace of the first.
  pub insert-insert :
      (k j : K) (v w : V) (m : HashMap K V) → j ≡ k → insert j w (insert k v m) ≡ insert j w m
  insert-insert k j v w m e =
      subst (λ i. insert i w (insert k v m) ≡ insert i w m) (sym e)
        (ground (arith, same_refl k, erase-erase k m))
