-- ===== src/Depin/Tests.antt =====
-- Concrete inputs at which the theorems about frychain-depin are applied.
use fry_chain.Depin.{ok, err}
use fry_chain.Depin.{DepinResult}
use fry_chain.Depin.Registry.Owners.{strangers_leave_device, changed, added, no_call}
use fry_chain.Prelude.{
  ◌%◌, ◌≡◌, refl, ◌↔◌, some, arith, replicate, nat_eq, list_eq, string_eq, [], ◌∷◌,
}
use fry_chain.Core.Address.{Address, device, standard, address_eq, address_beq_iff}
use fry_chain.Depin.Market.{
  DataListing, DataMarketplace, create_listing, purchase, new_listing, total_volume, environmental,
  completed, new_marketplace, DataPurchase, sell, change_listing, resume, pause,
}
use fry_chain.HashMap.{lookup, lookup_or, contains_key}
use fry_chain.Depin.Market.Purchases.{IsForSale, purchase_iff_IsForSale}
use fry_chain.Depin.Market.Books.{Reachable, bought, created, total_volume-eq-paid, opened}
use fry_chain.Words.{u128_mod}
use fry_chain.Depin.Market.Reopened.{resumed_sold_out_sells}
use fry_chain.Depin.Did.{DidDocument, validate}
use fry_chain.Depin.Registry.{
  DeviceInfo, DeviceRegistry, register, new_device, new_registry, change_status, suspended,
}
use fry_chain.Core.Hash.{Hash256}
use fry_chain.Depin.Registry.Indexes.{has_key, listed}
use fry_chain.Depin.Registry.Reachable.{registry_indexes, registered, empty}
use fry_chain.Depin.Market.Balance.{paid}

abbrev seller : Address
seller = record { addr_type = device; bytes = replicate 32 5 }

abbrev customer : Address
customer = record { addr_type = standard; bytes = replicate 32 6 }

abbrev readings : DataListing
readings =
    record (new_listing 10 0 (record { did = "did:fry:sensor"; address = seller }) seller
      environmental "readings" "hourly" 7 "hour") { available_units = 20 }

abbrev sold_out : DataListing
sold_out = record readings { available_units = 0; status = completed }

abbrev one_listing : DataMarketplace
one_listing = (create_listing new_marketplace readings).0

abbrev nothing_left : DataMarketplace
nothing_left = (create_listing new_marketplace sold_out).0

abbrev after_sale : DataMarketplace × DataPurchase
after_sale = sell 30 "purchase-1" one_listing 0 readings customer 5

readings_listed : lookup 0 one_listing.listings ≡ some readings
unfolding create_listing new_listing
readings_listed = refl

went_through : purchase 30 "purchase-1" one_listing 0 customer 5 ≡ ok after_sale
unfolding create_listing new_listing purchase
went_through = refl

purchase_iff_IsForSale_example :
    (purchase 30 "purchase-1" one_listing 0 customer 5
      ≡ ok (sell 30 "purchase-1" one_listing 0 readings customer 5))
    ↔ IsForSale readings 5
purchase_iff_IsForSale_example =
    purchase_iff_IsForSale 30 "purchase-1" one_listing 0 readings customer 5 readings_listed

sale_reached : Reachable after_sale.0
unfolding new_listing
sale_reached =
    bought 30 "purchase-1" 0 customer 5 went_through (created readings refl (omega arith) opened)

total_volume-eq-paid_example : total_volume after_sale.0 ≡ paid after_sale.0 % u128_mod
total_volume-eq-paid_example = total_volume-eq-paid sale_reached

resumed_sold_out_sells_example :
    (r : DataMarketplace × DataPurchase) × (purchase 40 "purchase-2"
        (change_listing (resume 40) (change_listing (pause 40) nothing_left 0) 0)
        0
        customer
        1000
      ≡ ok r)
unfolding create_listing new_listing
resumed_sold_out_sells_example =
    resumed_sold_out_sells 40 "purchase-2" nothing_left 0 sold_out customer 1000 refl refl refl
      (omega arith)

abbrev toy_document_hash : DidDocument → Hash256
toy_document_hash d = replicate 32 (d.version % 256)

abbrev sensor_document : DidDocument
sensor_document = record {
  id = record { did = "did:fry:sensor"; address = seller };
  verification_method =
      record {
        id = "key-1";
        controller = "did:fry:sensor";
        method_type = "Dilithium2VerificationKey2024";
        public_key_multibase = "z1";
      }
      ∷ [];
  authentication = "key-1" ∷ [];
  service = [];
  attributes = [];
  created = 10;
  updated = 0;
  version = 1;
}

abbrev camera_document : DidDocument
camera_document = record sensor_document {
  id = record { did = "did:fry:camera"; address = seller };
}

abbrev sensor_info : DeviceInfo
sensor_info = new_device 10 sensor_document.id seller (toy_document_hash sensor_document) "sensor"

abbrev one_device : DeviceRegistry
one_device = record {
  devices = ("did:fry:sensor", sensor_info) ∷ [];
  did_documents = ("did:fry:sensor", sensor_document) ∷ [];
  devices_by_owner = (seller, "did:fry:sensor" ∷ []) ∷ [];
  devices_by_type = ("sensor", "did:fry:sensor" ∷ []) ∷ [];
}

sensor_registered :
    register toy_document_hash 10 new_registry seller sensor_document "sensor"
    ≡ ok (one_device, sensor_info)
unfolding register validate new_device
sensor_registered = refl

registry_indexes_example :
    (listed "did:fry:sensor" (lookup_or [] seller one_device.devices_by_owner)
      ≡ has_key (λ (d : DeviceInfo). d.owner) seller (lookup "did:fry:sensor" one_device.devices))
    × (listed "did:fry:sensor" (lookup_or [] "sensor" one_device.devices_by_type)
        ≡ has_key
            (λ (d : DeviceInfo). d.device_type)
            "sensor"
            (lookup "did:fry:sensor" one_device.devices))
    × (contains_key "did:fry:sensor" one_device.did_documents
        ≡ contains_key "did:fry:sensor" one_device.devices)
registry_indexes_example =
    registry_indexes seller "sensor" "did:fry:sensor"
      (registered toy_document_hash 10 seller sensor_document "sensor" sensor_registered empty)

-- A customer registers a camera, and suspends it.
abbrev result_or : {A : Type 0} → A → DepinResult A → A
result_or start (ok a) = a
result_or start (err e) = start

abbrev with_camera : DeviceRegistry × DeviceInfo
with_camera =
    result_or (one_device, sensor_info)
      (register toy_document_hash 20 one_device customer camera_document "camera")

abbrev camera_suspended : DeviceRegistry
camera_suspended =
    result_or one_device (change_status suspended with_camera.0 "did:fry:camera" customer)

strangers_leave_device_example :
    (lookup "did:fry:sensor" camera_suspended.devices ≡ some sensor_info)
    × (lookup "did:fry:sensor" camera_suspended.did_documents
        ≡ lookup "did:fry:sensor" one_device.did_documents)
unfolding register validate new_device change_status
strangers_leave_device_example =
    strangers_leave_device one_device "did:fry:sensor" sensor_info refl camera_suspended (
      changed suspended "did:fry:camera" customer (ground (arith, address_beq_iff seller customer))
        refl
        (added toy_document_hash 20 customer camera_document "camera" {x = with_camera} refl
          no_call))
