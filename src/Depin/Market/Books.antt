-- ===== src/Depin/Market/Books.antt =====
-- The books of the marketplace: what the listings have earned is what the buyers have paid.
-- The code is crates/frychain-depin/src/data.rs.
use fry_chain.Depin.{ok}
use fry_chain.Prelude.{
  ℕ, ◌+◌, ◌%◌, ◌<◌, String, ◌≡◌, inl, inr, arith, Option-cases, nat_eq, list_eq, string_eq, refl,
  subst,
}
use fry_chain.Depin.Market.{
  DataPurchase, DataMarketplace, DataListing, change_listing, create_listing, new_marketplace,
  purchase, resume, pause, total_volume, cancel,
}
use fry_chain.Core.Address.{Address, address_eq}
use fry_chain.HashMap.{lookup}
use fry_chain.Words.{u64_mod, u128_mod}
use fry_chain.Depin.Market.Purchases.{accepted}
use fry_chain.Depin.Market.Balance.{IsValid, paid, sell-IsValid, create-IsValid, change-IsValid}

-- The marketplaces that calls of the operations lead to: listings that have earned nothing are
-- created, below the last number of a `u64`; data is bought; listings are paused, resumed and
-- cancelled.
pub data Reachable : DataMarketplace → Type 0 where
  opened : Reachable new_marketplace
  created :
      {m : DataMarketplace} (l : DataListing)
      → l.total_revenue ≡ 0
      → m.next_id + 1 < u64_mod
      → Reachable m
      → Reachable (create_listing m l).0
  bought :
      {m : DataMarketplace} (now : ℕ) (purchase_id : String) (id : ℕ) (buyer : Address) (units : ℕ)
      {r : DataMarketplace × DataPurchase}
      → purchase now purchase_id m id buyer units ≡ ok r
      → Reachable m
      → Reachable r.0
  held :
      {m : DataMarketplace} (now id : ℕ) → Reachable m → Reachable (change_listing (pause now) m id)
  resumed :
      {m : DataMarketplace} (now id : ℕ)
      → Reachable m
      → Reachable (change_listing (resume now) m id)
  withdrawn :
      {m : DataMarketplace} (now id : ℕ)
      → Reachable m
      → Reachable (change_listing (cancel now) m id)

purchase-IsValid :
    (now : ℕ) (purchase_id : String) (m : DataMarketplace) (id : ℕ) (buyer : Address) (units : ℕ)
    {r : DataMarketplace × DataPurchase}
    → IsValid m
    → purchase now purchase_id m id buyer units ≡ ok r
    → IsValid r.0
unfolding purchase
purchase-IsValid now purchase_id m id buyer units v h = elim (Option-cases (lookup id m.listings)) [
  | inl absent ↦ absurd (ground (arith, absent))
  | inr (l, found) ↦
      let (sold, sale) = accepted now purchase_id m id l buyer units found h in
      subst (λ r. IsValid r.0) sold (sell-IsValid now purchase_id m id l buyer units v found)
]

resume_keeps : (now : ℕ) (l : DataListing) → (resume now l).total_revenue ≡ l.total_revenue
unfolding resume
resume_keeps now l = ground arith

Reachable-IsValid : {m : DataMarketplace} → Reachable m → IsValid m
unfolding pause cancel
Reachable-IsValid opened = record {
  listings_distinct = tt;
  buyers_distinct = tt;
  numbered = tt;
  balanced = refl;
}
Reachable-IsValid (created {m} l fresh room h) = create-IsValid m l fresh room (Reachable-IsValid h)
Reachable-IsValid (bought {m} now purchase_id id buyer units e h) =
    purchase-IsValid now purchase_id m id buyer units (Reachable-IsValid h) e
Reachable-IsValid (held {m} now id h) =
    change-IsValid (pause now) (λ l. refl) m id (Reachable-IsValid h)
Reachable-IsValid (resumed {m} now id h) =
    change-IsValid (resume now) (resume_keeps now) m id (Reachable-IsValid h)
Reachable-IsValid (withdrawn {m} now id h) =
    change-IsValid (cancel now) (λ l. refl) m id (Reachable-IsValid h)

-- In every marketplace that is reached from the empty one by creating listings that have earned
-- nothing, fewer than 2 ^ 64 - 1 of them, by purchases, and by pausing, resuming and cancelling
-- listings, the volume that it reports is what all buyers have paid, as a `u128`.
pub total_volume-eq-paid : {m : DataMarketplace} → Reachable m → total_volume m ≡ paid m % u128_mod
unfolding total_volume
total_volume-eq-paid h = (Reachable-IsValid h).balanced
