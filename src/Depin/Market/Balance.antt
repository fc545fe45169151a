-- ===== src/Depin/Market/Balance.antt =====
-- Every operation of the marketplace keeps its revenue and what was paid in balance.
-- The code is crates/frychain-depin/src/data.rs.
use fry_chain.Prelude.{
  ℕ, ◌+◌, ◌%◌, ◌<◌, String, ◌≡◌, inl, inr, some, List, [], ◌∷◌, ◌++◌, arith, Option-cases, nat_eq,
  list_eq, string_eq, ◌≤◌, none,
}
use fry_chain.Depin.Market.{
  DataPurchase, DataMarketplace, DataListing, sell, change_listing, create_listing, push_to,
  record_sale,
}
use fry_chain.Core.Address.{Address, address_eq}
use fry_chain.HashMap.Total.{total, total-erase-some, total-erase-none}
use fry_chain.HashMap.{IsMap, HashMap, lookup, insert, erase, lookup_or}
use fry_chain.Words.{u64_mod, u128_mod, wrapping_add}
use fry_chain.HashMap.Entries.{AllEntries, AllEntries-insert, AllEntries-lookup}
use fry_chain.HashMap.Laws.{insert-IsMap}

abbrev pub spent : List DataPurchase → ℕ
spent [] = 0
spent (p ∷ ps) = p.price_paid + spent ps

-- The prices of all purchases, added up.
abbrev pub paid : DataMarketplace → ℕ
paid m = total spent m.purchases_by_buyer

abbrev revenue : DataListing → ℕ
revenue l = l.total_revenue

abbrev IsNumbered : ℕ → ℕ → DataListing → Type 0
IsNumbered next k l = k < next

pub record IsValid (m : DataMarketplace) : Type 0 where
  pub listings_distinct : IsMap m.listings
  pub buyers_distinct : IsMap m.purchases_by_buyer
  pub numbered : AllEntries (IsNumbered m.next_id) m.listings
  pub balanced : total revenue m.listings % u128_mod ≡ paid m % u128_mod

spent-append :
    (ps : List DataPurchase) (p : DataPurchase) → spent (ps ++ p ∷ []) ≡ spent ps + p.price_paid
spent-append [] p = omega arith
spent-append (q ∷ ps) p = omega (arith, spent-append ps p)

spent-lookup :
    (buyer : Address) (m : HashMap Address (List DataPurchase))
    → IsMap m
    → total spent (erase buyer m) + spent (lookup_or [] buyer m) ≡ total spent m
spent-lookup buyer m distinct = elim (Option-cases (lookup buyer m)) [
  | inl absent ↦ ground (arith, absent, total-erase-none spent buyer m absent)
  | inr (ps, present) ↦ ground (arith, present, total-erase-some spent buyer ps m distinct present)
]

-- One more purchase adds its price.
total-push_to :
    (buyer : Address) (p : DataPurchase) (m : HashMap Address (List DataPurchase))
    → IsMap m
    → total spent (push_to buyer p m) ≡ total spent m + p.price_paid
total-push_to buyer p m distinct =
    omega (arith, spent-lookup buyer m distinct, spent-append (lookup_or [] buyer m) p)

-- Writing a listing anew changes the revenue by the difference.
total-rewrite :
    (id : ℕ) (l l' : DataListing) (m : HashMap ℕ DataListing)
    → IsMap m
    → lookup id m ≡ some l
    → total revenue (insert id l' m) + l.total_revenue ≡ total revenue m + l'.total_revenue
total-rewrite id l l' m distinct found =
    omega (arith, total-erase-some revenue id l m distinct found)

pub sell-IsValid :
    (now : ℕ) (purchase_id : String) (m : DataMarketplace) (id : ℕ) (l : DataListing)
    (buyer : Address) (units : ℕ)
    → IsValid m
    → lookup id m.listings ≡ some l
    → IsValid (sell now purchase_id m id l buyer units).0
unfolding sell
sell-IsValid now purchase_id m id l buyer units v found =
    let p = (sell now purchase_id m id l buyer units).1 in
    record {
      listings_distinct = insert-IsMap id (record_sale now l units) m.listings v.listings_distinct;
      buyers_distinct =
          insert-IsMap buyer (lookup_or [] buyer m.purchases_by_buyer ++ p ∷ [])
            m.purchases_by_buyer v.buyers_distinct;
      numbered =
          AllEntries-insert (IsNumbered m.next_id) id (record_sale now l units) m.listings
            (AllEntries-lookup (IsNumbered m.next_id) id m.listings v.numbered found) v.numbered;
      balanced = omega (
        arith,
        v.balanced,
        total-push_to buyer p m.purchases_by_buyer v.buyers_distinct,
        total-rewrite id l (record_sale now l units) m.listings v.listings_distinct found,
      );
    }

pub change-IsValid :
    (f : DataListing → DataListing)
    → ((l : DataListing) → (f l).total_revenue ≡ l.total_revenue)
    → (m : DataMarketplace) (id : ℕ) → IsValid m
    → IsValid (change_listing f m id)
unfolding change_listing
change-IsValid f keep m id v = elim (Option-cases (lookup id m.listings)) [
  | inl absent ↦ rw (change_listing, absent) v
  | inr (l, found) ↦
      rw (change_listing, found)
        (record {
          listings_distinct = insert-IsMap id (f l) m.listings v.listings_distinct;
          buyers_distinct = v.buyers_distinct;
          numbered =
              AllEntries-insert (IsNumbered m.next_id) id (f l) m.listings
                (AllEntries-lookup (IsNumbered m.next_id) id m.listings v.numbered found)
                v.numbered;
          balanced = omega (
            arith,
            v.balanced,
            keep l,
            total-rewrite id l (f l) m.listings v.listings_distinct found,
          );
        })
]

IsNumbered-more :
    (a b : ℕ)
    → a ≤ b
    → (m : HashMap ℕ DataListing) → AllEntries (IsNumbered a) m
    → AllEntries (IsNumbered b) m
IsNumbered-more a b h [] n = tt
IsNumbered-more a b h ((k, l) ∷ m) n = (omega (arith, n.0), IsNumbered-more a b h m n.1)

next_id_unused :
    (next : ℕ) (m : HashMap ℕ DataListing) → AllEntries (IsNumbered next) m → lookup next m ≡ none
next_id_unused next m n = elim (Option-cases (lookup next m)) [
  | inl absent ↦ absent
  | inr (l, found) ↦ absurd (omega (arith, AllEntries-lookup (IsNumbered next) next m n found))
]

pub create-IsValid :
    (m : DataMarketplace) (l : DataListing)
    → l.total_revenue ≡ 0
    → m.next_id + 1 < u64_mod
    → IsValid m
    → IsValid (create_listing m l).0
unfolding create_listing
create-IsValid m l fresh room v =
    let id = m.next_id in
    let l' = record l { id = id } in
    let next : wrapping_add u64_mod id 1 ≡ id + 1 = omega (arith, room) in
    rw next (record {
      listings_distinct = insert-IsMap id l' m.listings v.listings_distinct;
      buyers_distinct = v.buyers_distinct;
      numbered =
          AllEntries-insert (IsNumbered (id + 1)) id l' m.listings (omega arith)
            (IsNumbered-more id (id + 1) (omega arith) m.listings v.numbered);
      balanced = omega (
        arith,
        fresh,
        v.balanced,
        total-erase-none revenue id m.listings (next_id_unused id m.listings v.numbered),
      );
    })
