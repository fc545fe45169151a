-- ===== src/Depin/Registry/Indexes.antt =====
-- The indexes list the devices of each owner and of each type.
-- The code is crates/frychain-depin/src/registry.rs.
use fry_chain.Prelude.{
  String, ◌≡◌, refl, inl, inr, Bool, false, not, ◌&&◌, ◌||◌, Option, none, some, List, [], ◌∷◌,
  ◌++◌, arith, if◌then◌else◌, Option-cases, same, string_eq, Eq,
}
use fry_chain.Depin.Registry.{removed, DeviceInfo, remove_from}
use fry_chain.HashMap.{HashMap, lookup_or, lookup, push_to, insert, erase}
use fry_chain.HashMap.Laws.{lookup-insert, lookup-erase}

abbrev pub listed : String → List String → Bool
listed did [] = false
listed did (d ∷ ds) = same d did || listed did ds

listed-append :
    (x y : String) (ds : List String) → listed x (ds ++ y ∷ []) ≡ (listed x ds || same y x)
listed-append x y [] = ground arith
listed-append x y (d ∷ ds) = ground (arith, listed-append x y ds)

listed-removed :
    (x y : String) (ds : List String) → listed x (removed y ds) ≡ (listed x ds && not (same y x))
listed-removed x y [] = refl
listed-removed x y (d ∷ ds) = ground (
  arith,
  listed-removed x y ds,
  string_eq.beq_iff d y,
  string_eq.beq_iff d x,
  string_eq.beq_iff y x,
)

module _ {K : Type 0} ⦃e : Eq K⦄ where
  lookup_or-push_to :
      (k j : K) (did : String) (m : HashMap K (List String))
      → lookup_or [] j (push_to k did m)
        ≡ (if same k j then lookup_or [] k m ++ did ∷ [] else lookup_or [] j m)
  lookup_or-push_to k j did m = ground (arith, lookup-insert k j (lookup_or [] k m ++ did ∷ []) m)

  lookup_or-remove_from :
      (k j : K) (did : String) (m : HashMap K (List String))
      → lookup_or [] j (remove_from k did m)
        ≡ (if same k j then removed did (lookup_or [] k m) else lookup_or [] j m)
  lookup_or-remove_from k j did m = elim (Option-cases (lookup k m)) [
    | inl absent ↦ ground (arith, absent, e.beq_iff k j)
    | inr (dids, present) ↦ ground (arith, present, lookup-insert k j (removed did dids) m)
  ]

  -- Does the device have the key `k`?
  abbrev pub has_key : (DeviceInfo → K) → K → Option DeviceInfo → Bool
  has_key key k none = false
  has_key key k (some d) = same (key d) k

  -- The index lists exactly the devices of each key.
  abbrev pub IsIndex :
      (DeviceInfo → K) → HashMap String DeviceInfo → HashMap K (List String) → Type 0
  IsIndex key devices index =
      (k : K) (did : String)
      → listed did (lookup_or [] k index) ≡ has_key key k (lookup did devices)

  module _ (key : DeviceInfo → K) (devices : HashMap String DeviceInfo)
      (index : HashMap K (List String)) where
    pub push-IsIndex :
        (did : String) (info : DeviceInfo)
        → lookup did devices ≡ none
        → IsIndex key devices index
        → IsIndex key (insert did info devices) (push_to (key info) did index)
    push-IsIndex did info new ih k x =
        rw (lookup_or-push_to (key info) k did index, lookup-insert did x info devices)
          (ground (
            arith,
            ih k x,
            ih (key info) x,
            ih k did,
            ih (key info) did,
            new,
            listed-append x did (lookup_or [] (key info) index),
            string_eq.beq_iff did x,
            e.beq_iff (key info) k,
          ))

    pub same-IsIndex :
        (did : String) (d d' : DeviceInfo)
        → lookup did devices ≡ some d
        → key d' ≡ key d
        → IsIndex key devices index
        → IsIndex key (insert did d' devices) index
    same-IsIndex did d d' found kept ih k x =
        rw (lookup-insert did x d' devices)
          (ground (arith, ih k x, found, kept, string_eq.beq_iff did x))

    pub remove-IsIndex :
        (did : String) (d : DeviceInfo)
        → lookup did devices ≡ some d
        → IsIndex key devices index
        → IsIndex key (erase did devices) (remove_from (key d) did index)
    remove-IsIndex did d found ih k x =
        rw (lookup_or-remove_from (key d) k did index, lookup-erase did x devices)
          (ground (
            arith,
            ih k x,
            ih (key d) x,
            found,
            listed-removed x did (lookup_or [] (key d) index),
            string_eq.beq_iff did x,
            e.beq_iff (key d) k,
          ))
