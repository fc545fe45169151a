-- ===== src/Depin/Registry.antt =====
-- crates/frychain-depin/src/registry.rs: devices and the registry with its two indexes. The clock is
-- the argument `now`, the hash of a document's JSON form the argument `document_hash`.
pub mod Indexes
pub mod Consistent
pub mod Reachable
pub mod Documents
pub mod Owners
use fry_chain.Depin.{
  ok, err, DepinResult, device_not_found, unauthorized, device_already_registered,
}
use fry_chain.Prelude.{
  ℕ, ◌+◌, ◌-◌, ◌^◌, min, String, none, some, List, [], ◌∷◌, ltb, if◌then◌else◌, same, Eq, nat_eq,
  list_eq, string_eq,
}
use fry_chain.Depin.Did.{DeviceDid, DidDocument, validate}
use fry_chain.Words.{wrapping_add, u64_mod, u128_mod}
use fry_chain.HashMap.{HashMap, lookup_or, lookup, insert, contains_key, erase, push_to}
use fry_chain.Core.Address.{Address, address_eq}
use fry_chain.Core.Hash.{Hash256}

pub data DeviceStatus : Type 0 where
  active suspended deactivated pending : DeviceStatus

pub record DeviceInfo : Type 0 where
  pub did : DeviceDid
  pub owner : Address
  pub did_doc_hash : Hash256
  pub status : DeviceStatus
  pub device_type : String
  pub registered_at : ℕ
  pub last_seen : ℕ
  pub reputation : ℕ
  pub data_contributions : ℕ
  pub total_earnings : ℕ

-- `DeviceInfo::new`
unfoldable pub new_device : ℕ → DeviceDid → Address → Hash256 → String → DeviceInfo
new_device now did owner did_doc_hash device_type = record {
  did = did;
  owner = owner;
  did_doc_hash = did_doc_hash;
  status = pending;
  device_type = device_type;
  registered_at = now;
  last_seen = now;
  reputation = 500;
  data_contributions = 0;
  total_earnings = 0;
}

unfoldable pub touch : ℕ → DeviceInfo → DeviceInfo
touch now d = record d { last_seen = now }

abbrev pub set_status : DeviceStatus → DeviceInfo → DeviceInfo
set_status status d = record d { status = status }

-- A change of the reputation, an `i32`.
pub data Delta : Type 0 where
  gain loss : ℕ → Delta

-- The sum of a reputation below 2 ^ 31 and a gain wraps around to a negative number from 2 ^ 31 on.
unfoldable pub update_reputation : DeviceInfo → Delta → DeviceInfo
update_reputation d (gain n) = record d {
  reputation = if ltb (d.reputation + n) (2 ^ 31) then min (d.reputation + n) 1000 else 0;
}
update_reputation d (loss n) = record d { reputation = min (d.reputation - n) 1000 }

unfoldable pub record_contribution : ℕ → DeviceInfo → ℕ → DeviceInfo
unfolding update_reputation touch
record_contribution now d earnings =
    let d' = record d {
      data_contributions = wrapping_add u64_mod d.data_contributions 1;
      total_earnings = wrapping_add u128_mod d.total_earnings earnings;
    } in
    touch now (update_reputation d' (gain 1))

pub record DeviceRegistry : Type 0 where
  pub devices : HashMap String DeviceInfo
  pub did_documents : HashMap String DidDocument
  pub devices_by_owner : HashMap Address (List String)
  pub devices_by_type : HashMap String (List String)

abbrev pub new_registry : DeviceRegistry
new_registry = record {
  devices = [];
  did_documents = [];
  devices_by_owner = [];
  devices_by_type = [];
}

-- `retain(|d| d != did)` on the list of a key that has one
abbrev pub removed : String → List String → List String
removed did [] = []
removed did (d ∷ ds) = let rest = removed did ds in if same d did then rest else d ∷ rest

abbrev pub remove_from {ℓ} :
    {K : Type ℓ} ⦃e : Eq K⦄ → K → String → HashMap K (List String) → HashMap K (List String)
remove_from k did m = elim (lookup k m) [ none ↦ m | some dids ↦ insert k (removed did dids) m ]

module _ (document_hash : DidDocument → Hash256) (now : ℕ) where
  -- The errors return before anything is changed.
  unfoldable pub register :
      DeviceRegistry → Address → DidDocument → String → DepinResult (DeviceRegistry × DeviceInfo)
  unfolding validate new_device
  register r owner document device_type = elim (validate document) [
    | err e ↦ err e
    | ok _ ↦
        let did = document.id.did in
        let info = new_device now document.id owner (document_hash document) device_type in
        if contains_key did r.devices
        then err (device_already_registered did)
        else ok (
          record {
            devices = insert did info r.devices;
            did_documents = insert did document r.did_documents;
            devices_by_owner = push_to owner did r.devices_by_owner;
            devices_by_type = push_to device_type did r.devices_by_type;
          },
          info,
        )
  ]

  unfoldable pub update_did_document :
      DeviceRegistry → String → DidDocument → Address → DepinResult DeviceRegistry
  unfolding validate
  update_did_document r did document by = elim (validate document) [
    | err e ↦ err e
    | ok _ ↦ elim (lookup did r.devices) [
      | none ↦ err (device_not_found did)
      | some d ↦
          if same d.owner by
          then ok (record r {
            devices = insert did (record d { did_doc_hash = document_hash document }) r.devices;
            did_documents = insert did document r.did_documents;
          })
          else err unauthorized
    ]
  ]

-- `activate_device` and `suspend_device`, by the status that they set
unfoldable pub change_status :
    DeviceStatus → DeviceRegistry → String → Address → DepinResult DeviceRegistry
change_status status r did by = elim (lookup did r.devices) [
  | none ↦ err (device_not_found did)
  | some d ↦
      if same d.owner by
      then ok (record r { devices = insert did (set_status status d) r.devices })
      else err unauthorized
]

unfoldable pub deregister : DeviceRegistry → String → Address → DepinResult DeviceRegistry
deregister r did by = elim (lookup did r.devices) [
  | none ↦ err (device_not_found did)
  | some d ↦
      if same d.owner by
      then ok (record {
        devices = erase did r.devices;
        did_documents = erase did r.did_documents;
        devices_by_owner = remove_from d.owner did r.devices_by_owner;
        devices_by_type = remove_from d.device_type did r.devices_by_type;
      })
      else err unauthorized
]

-- `dids.iter().filter_map(|did| self.devices.get(did))`
abbrev pub devices_of : HashMap String DeviceInfo → List String → List DeviceInfo
devices_of devices [] = []
devices_of devices (did ∷ dids) = elim (lookup did devices) [
  | none ↦ devices_of devices dids
  | some d ↦ d ∷ devices_of devices dids
]

unfoldable pub get_devices_by_owner : DeviceRegistry → Address → List DeviceInfo
get_devices_by_owner r owner = devices_of r.devices (lookup_or [] owner r.devices_by_owner)

unfoldable pub get_devices_by_type : DeviceRegistry → String → List DeviceInfo
get_devices_by_type r device_type =
    devices_of r.devices (lookup_or [] device_type r.devices_by_type)
