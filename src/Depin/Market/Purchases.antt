-- ===== src/Depin/Market/Purchases.antt =====
-- When a purchase goes through, and what it does to the listing.
-- The code is crates/frychain-depin/src/data.rs.
use fry_chain.Depin.{ok}
use fry_chain.Prelude.{
  ℕ, ◌+◌, ◌%◌, ◌≤◌, ◌<◌, String, ◌≡◌, ◌↔◌, ◌⊎◌, some, arith, nat_eq, list_eq, string_eq, refl,
  subst,
}
use fry_chain.Depin.Market.{
  DataListing, DataMarketplace, active, purchase, sell, DataPurchase, record_sale, completed,
}
use fry_chain.Core.Address.{Address, address_eq}
use fry_chain.HashMap.{lookup}
use fry_chain.Words.{u128_mod}
use fry_chain.HashMap.Laws.{lookup-insert_self}

-- What a purchase asks of a listing.
pub record IsForSale (l : DataListing) (units : ℕ) : Type 0 where
  pub on_offer : l.status ≡ active
  pub enough_asked : l.min_purchase ≤ units
  pub in_stock : (l.available_units ≡ 0) ⊎ (units ≤ l.available_units)

module _ (now : ℕ) (purchase_id : String) (m : DataMarketplace) (id : ℕ) (l : DataListing)
    (buyer : Address) (units : ℕ) (listed : lookup id m.listings ≡ some l) where
  -- A purchase of a listing goes through exactly if the listing is active, the units are at least its
  -- minimum, and it has no limit or has that many units left.
  pub purchase_iff_IsForSale :
      (purchase now purchase_id m id buyer units ≡ ok (sell now purchase_id m id l buyer units))
      ↔ IsForSale l units
  unfolding purchase
  purchase_iff_IsForSale = rw (purchase, listed) (ground arith)

  pub accepted :
      {r : DataMarketplace × DataPurchase}
      → purchase now purchase_id m id buyer units ≡ ok r
      → (sell now purchase_id m id l buyer units ≡ r) × IsForSale l units
  unfolding purchase
  accepted h = ground (arith, listed, purchase_iff_IsForSale)

  -- The stock of the listing after a sale that made `r` of it.
  abbrev Stock : DataMarketplace × DataPurchase → Type 0
  Stock (m', p) =
      (l' : DataListing) × (lookup id m'.listings ≡ some l')
      × (l'.available_units + units ≡ l.available_units)
      × ((l'.status ≡ completed) ↔ (l'.available_units ≡ 0))
      × (l'.total_revenue ≡ (l.total_revenue + p.price_paid) % u128_mod)

  sell-Stock :
      0 < l.available_units → IsForSale l units → Stock (sell now purchase_id m id l buyer units)
  unfolding sell record_sale
  sell-Stock limited sale = (
    record_sale now l units,
    lookup-insert_self id (record_sale now l units) m.listings,
    ground arith,
    ground arith,
    refl,
  )

  -- A purchase that is accepted from a listing with a limit takes the units from its stock, closes
  -- it exactly if none are left, and adds the price to its revenue, as a `u128`.
  pub purchase_stock :
      {m' : DataMarketplace} {p : DataPurchase}
      → 0 < l.available_units
      → purchase now purchase_id m id buyer units ≡ ok (m', p)
      → (l' : DataListing) × (lookup id m'.listings ≡ some l')
        × (l'.available_units + units ≡ l.available_units)
        × ((l'.status ≡ completed) ↔ (l'.available_units ≡ 0))
        × (l'.total_revenue ≡ (l.total_revenue + p.price_paid) % u128_mod)
  purchase_stock limited h =
      let (sold, sale) = accepted h in subst Stock sold (sell-Stock limited sale)
