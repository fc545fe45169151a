-- ===== src/Depin/Market/Reopened.antt =====
-- What pausing and resuming a listing does to one that is closed.
-- The code is crates/frychain-depin/src/data.rs.
use fry_chain.Depin.{ok}
use fry_chain.Depin.Market.{DataPurchase}
use fry_chain.HashMap.Laws.{lookup-insert_self}
use fry_chain.Prelude.{ℕ, ◌≤◌, String, ◌≡◌, refl, inl, some, nat_eq, list_eq, string_eq}
use fry_chain.Depin.Market.{
  change_listing, pause, resume, DataMarketplace, DataListing, completed, purchase, sell,
}
use fry_chain.Core.Address.{Address, address_eq}
use fry_chain.HashMap.{lookup}
use fry_chain.Depin.Market.Purchases.{purchase_iff_IsForSale}

change_listing_found :
    (f : DataListing → DataListing) (m : DataMarketplace) (id : ℕ) (l : DataListing)
    → lookup id m.listings ≡ some l
    → lookup id (change_listing f m id).listings ≡ some (f l)
unfolding change_listing
change_listing_found f m id l found =
    rw (change_listing, found) (lookup-insert_self id (f l) m.listings)

-- A listing that is sold out is for sale again, without a limit, after it has been paused and
-- resumed: a purchase of any number of units from its minimum on goes through.
pub resumed_sold_out_sells :
    (now : ℕ) (purchase_id : String) (m : DataMarketplace) (id : ℕ) (l : DataListing)
    (buyer : Address) (units : ℕ)
    → lookup id m.listings ≡ some l
    → l.status ≡ completed
    → l.available_units ≡ 0
    → l.min_purchase ≤ units
    → let m' = change_listing (resume now) (change_listing (pause now) m id) id in
      (r : DataMarketplace × DataPurchase) × (purchase now purchase_id m' id buyer units ≡ ok r)
unfolding change_listing pause resume
resumed_sold_out_sells now purchase_id m id l buyer units listed sold none_left enough =
    let m' = change_listing (resume now) (change_listing (pause now) m id) id in
    let back = resume now (pause now l) in
    (
      sell now purchase_id m' id back buyer units,
      (purchase_iff_IsForSale now purchase_id m' id back buyer units (
            change_listing_found (resume now) (change_listing (pause now) m id) id (pause now l)
              (change_listing_found (pause now) m id l listed))).1
          (record { on_offer = refl; enough_asked = enough; in_stock = inl none_left }),
    )
