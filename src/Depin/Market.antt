-- ===== src/Depin/Market.antt =====
-- crates/frychain-depin/src/data.rs: listings, purchases and the data marketplace. The clock and the
-- random ids of purchases are arguments. The id `listing-{n}` of a listing is modelled by its number
-- `n`, and the key of a category, its debug form, by the category. The JSON schema of a listing,
-- which is only stored, is left out.
pub mod Purchases
pub mod Balance
pub mod Books
pub mod Reopened
use fry_chain.Prelude.{
  ℕ, ◌-◌, ◌%◌, String, ◌≡◌, ◌↔◌, Bool, true, false, not, ◌&&◌, Option, none, some, List, [], ◌∷◌,
  ◌++◌, arith, ltb, ◌==◌, if◌then◌else◌, same, string_eq, Eq, nat_eq, list_eq,
}
use fry_chain.Core.Address.{Address, address_eq}
use fry_chain.Core.Amount.{TokenAmount}
use fry_chain.Words.{wrapping_add, wrapping_mul, u64_mod, u128_mod}
use fry_chain.HashMap.{HashMap, insert, lookup, lookup_or, alter, push_to}
use fry_chain.Core.Hash.{Hash256}
use fry_chain.Depin.{DepinResult, err, invalid_data_listing, ok}
use fry_chain.HashMap.Total.{total}
use fry_chain.Depin.Did.{DeviceDid}

pub data ListingStatus : Type 0 where
  active paused completed cancelled : ListingStatus

abbrev pub status_eq : ListingStatus → ListingStatus → Bool
status_eq active active = true
status_eq paused paused = true
status_eq completed completed = true
status_eq cancelled cancelled = true
status_eq _ _ = false

pub data DataCategory : Type 0 where
  environmental location industrial traffic energy health agricultural : DataCategory
  custom : String → DataCategory

abbrev pub category_beq : DataCategory → DataCategory → Bool
category_beq environmental environmental = true
category_beq location location = true
category_beq industrial industrial = true
category_beq traffic traffic = true
category_beq energy energy = true
category_beq health health = true
category_beq agricultural agricultural = true
category_beq (custom a) (custom b) = same a b
category_beq _ _ = false

pub category_beq_iff : (a b : DataCategory) → (category_beq a b ≡ true) ↔ (a ≡ b)
category_beq_iff (custom a) (custom b) = ground (arith, string_eq.beq_iff a b)
category_beq_iff a b = ground arith

instance abbrev pub category_eq : Eq DataCategory
category_eq = record { beq = category_beq; beq_iff = category_beq_iff }

pub record DataListing : Type 0 where
  pub id : ℕ
  pub provider : DeviceDid
  pub owner : Address
  pub category : DataCategory
  pub title : String
  pub description : String
  pub price_per_unit : TokenAmount
  pub unit_type : String
  pub available_units : ℕ
  pub min_purchase : ℕ
  pub sample_hash : Option Hash256
  pub status : ListingStatus
  pub created_at : ℕ
  pub updated_at : ℕ
  pub total_sales : ℕ
  pub total_revenue : TokenAmount

-- `DataListing::new`
unfoldable pub new_listing :
    ℕ
    → ℕ
    → DeviceDid
    → Address
    → DataCategory
    → String
    → String
    → TokenAmount
    → String
    → DataListing
new_listing now id provider owner category title description price unit_type = record {
  id = id;
  provider = provider;
  owner = owner;
  category = category;
  title = title;
  description = description;
  price_per_unit = price;
  unit_type = unit_type;
  available_units = 0;
  min_purchase = 1;
  sample_hash = none;
  status = active;
  created_at = now;
  updated_at = now;
  total_sales = 0;
  total_revenue = 0;
}

unfoldable pub with_available_units : DataListing → ℕ → DataListing
with_available_units l units = record l { available_units = units }

unfoldable pub with_min_purchase : DataListing → ℕ → DataListing
with_min_purchase l units = record l { min_purchase = units }

unfoldable pub calculate_cost : DataListing → ℕ → TokenAmount
calculate_cost l units = wrapping_mul u128_mod l.price_per_unit units

-- No available units means that there is no limit, unless the sale took the last one.
unfoldable pub record_sale : ℕ → DataListing → ℕ → DataListing
unfolding calculate_cost
record_sale now l units =
    let left = l.available_units - units in
    record l {
      total_sales = wrapping_add u64_mod l.total_sales units;
      total_revenue = wrapping_add u128_mod l.total_revenue (calculate_cost l units);
      available_units = if ltb 0 l.available_units then left else l.available_units;
      status = if ltb 0 l.available_units && left == 0 then completed else l.status;
      updated_at = now;
    }

unfoldable pub pause : ℕ → DataListing → DataListing
pause now l = record l { status = paused; updated_at = now }

unfoldable pub resume : ℕ → DataListing → DataListing
resume now l =
    if status_eq l.status paused then record l { status = active; updated_at = now } else l

unfoldable pub cancel : ℕ → DataListing → DataListing
cancel now l = record l { status = cancelled; updated_at = now }

pub record DataPurchase : Type 0 where
  pub id : String
  pub listing_id : ℕ
  pub buyer : Address
  pub units : ℕ
  pub price_paid : TokenAmount
  pub purchased_at : ℕ
  pub delivery_hash : Option Hash256
  pub delivered : Bool

pub record DataMarketplace : Type 0 where
  pub listings : HashMap ℕ DataListing
  pub listings_by_category : HashMap DataCategory (List ℕ)
  pub listings_by_owner : HashMap Address (List ℕ)
  pub purchases_by_buyer : HashMap Address (List DataPurchase)
  pub next_id : ℕ

abbrev pub new_marketplace : DataMarketplace
new_marketplace = record {
  listings = [];
  listings_by_category = [];
  listings_by_owner = [];
  purchases_by_buyer = [];
  next_id = 0;
}

-- The marketplace after the call, and the id of the listing; the call has no errors.
unfoldable pub create_listing : DataMarketplace → DataListing → DataMarketplace × ℕ
create_listing m listing =
    let id = m.next_id in
    (
      record {
        listings = insert id (record listing { id = id }) m.listings;
        listings_by_category = push_to listing.category id m.listings_by_category;
        listings_by_owner = push_to listing.owner id m.listings_by_owner;
        purchases_by_buyer = m.purchases_by_buyer;
        next_id = wrapping_add u64_mod id 1;
      },
      id,
    )

unfoldable pub get_listing : DataMarketplace → ℕ → Option DataListing
get_listing m id = lookup id m.listings

-- A change through `get_listing_mut`.
unfoldable pub change_listing : (DataListing → DataListing) → DataMarketplace → ℕ → DataMarketplace
change_listing f m id = elim (lookup id m.listings) [
  | none ↦ m
  | some l ↦ record m { listings = insert id (f l) m.listings }
]

-- `filter_map(|id| self.listings.get(id))`
abbrev pub found : HashMap ℕ DataListing → List ℕ → List DataListing
found listings [] = []
found listings (id ∷ ids) = elim (lookup id listings) [
  | none ↦ found listings ids
  | some l ↦ l ∷ found listings ids
]

-- `filter(|l| l.status == ListingStatus::Active)`
abbrev pub only_active : List DataListing → List DataListing
only_active [] = []
only_active (l ∷ ls) =
    let rest = only_active ls in if status_eq l.status active then l ∷ rest else rest

unfoldable pub get_listings_by_category : DataMarketplace → DataCategory → List DataListing
get_listings_by_category m category =
    only_active (found m.listings (lookup_or [] category m.listings_by_category))

unfoldable pub get_listings_by_owner : DataMarketplace → Address → List DataListing
get_listings_by_owner m owner = found m.listings (lookup_or [] owner m.listings_by_owner)

-- A sale, after the checks.
unfoldable pub sell :
    ℕ → String → DataMarketplace → ℕ → DataListing → Address → ℕ → DataMarketplace × DataPurchase
unfolding record_sale calculate_cost
sell now purchase_id m id l buyer units =
    let bought : DataPurchase = record {
      id = purchase_id;
      listing_id = id;
      buyer = buyer;
      units = units;
      price_paid = calculate_cost l units;
      purchased_at = now;
      delivery_hash = none;
      delivered = false;
    } in
    (
      record m {
        listings = insert id (record_sale now l units) m.listings;
        purchases_by_buyer = push_to buyer bought m.purchases_by_buyer;
      },
      bought,
    )

-- The errors return before anything is changed.
unfoldable pub purchase :
    ℕ → String → DataMarketplace → ℕ → Address → ℕ → DepinResult (DataMarketplace × DataPurchase)
purchase now purchase_id m listing_id buyer units = elim (lookup listing_id m.listings) [
  | none ↦ err (invalid_data_listing "Listing not found")
  | some l ↦
      if not (status_eq l.status active)
      then err (invalid_data_listing "Listing not active")
      else if ltb units l.min_purchase
      then err (invalid_data_listing "Minimum purchase is")
      else if ltb 0 l.available_units && ltb l.available_units units
      then err (invalid_data_listing "Not enough units available")
      else ok (sell now purchase_id m listing_id l buyer units)
]

unfoldable pub get_purchases : DataMarketplace → Address → List DataPurchase
get_purchases m buyer = lookup_or [] buyer m.purchases_by_buyer

unfoldable pub total_volume : DataMarketplace → TokenAmount
total_volume m = total (λ (l : DataListing). l.total_revenue) m.listings % u128_mod
