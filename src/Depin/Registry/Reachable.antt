-- ===== src/Depin/Registry/Reachable.antt =====
-- The registries that calls of the operations lead to.
-- The code is crates/frychain-depin/src/registry.rs.
use fry_chain.Depin.{ok}
use fry_chain.Prelude.{ℕ, String, ◌≡◌, nat_eq, list_eq, string_eq, refl, []}
use fry_chain.Depin.Registry.{
  DeviceRegistry, register, update_did_document, change_status, deregister, DeviceInfo,
  DeviceStatus, new_registry,
}
use fry_chain.HashMap.{contains_key, lookup, lookup_or}
use fry_chain.Depin.Registry.Indexes.{listed, has_key}
use fry_chain.Depin.Did.{DidDocument}
use fry_chain.Core.Address.{Address, address_eq}
use fry_chain.Core.Hash.{Hash256}
use fry_chain.Depin.Registry.Consistent.{
  IsConsistent, register-IsConsistent, update-IsConsistent, change-IsConsistent,
  deregister-IsConsistent,
}

-- A registry is empty, or it is what an accepted call made of one before.
pub data Reachable : DeviceRegistry → Type 0 where
  empty : Reachable new_registry
  registered :
      {r : DeviceRegistry} (document_hash : DidDocument → Hash256) (now : ℕ) (owner : Address)
      (document : DidDocument) (device_type : String) {x : DeviceRegistry × DeviceInfo}
      → register document_hash now r owner document device_type ≡ ok x
      → Reachable r
      → Reachable x.0
  updated :
      {r r' : DeviceRegistry} (document_hash : DidDocument → Hash256) (now : ℕ) (did : String)
      (document : DidDocument) (by : Address)
      → update_did_document document_hash now r did document by ≡ ok r'
      → Reachable r
      → Reachable r'
  changed :
      {r r' : DeviceRegistry} (status : DeviceStatus) (did : String) (by : Address)
      → change_status status r did by ≡ ok r'
      → Reachable r
      → Reachable r'
  deregistered :
      {r r' : DeviceRegistry} (did : String) (by : Address)
      → deregister r did by ≡ ok r'
      → Reachable r
      → Reachable r'

Reachable-IsConsistent : {r : DeviceRegistry} → Reachable r → IsConsistent r
Reachable-IsConsistent empty = record {
  by_owner = λ k did. refl;
  by_type = λ k did. refl;
  documented = λ did. refl;
}
Reachable-IsConsistent (registered {r} document_hash now owner document device_type e h) =
    register-IsConsistent r (Reachable-IsConsistent h) document_hash now owner document device_type
      e
Reachable-IsConsistent (updated {r} document_hash now did document by e h) =
    update-IsConsistent r (Reachable-IsConsistent h) document_hash now did document by e
Reachable-IsConsistent (changed {r} status did by e h) =
    change-IsConsistent r (Reachable-IsConsistent h) status did by e
Reachable-IsConsistent (deregistered {r} did by e h) =
    deregister-IsConsistent r (Reachable-IsConsistent h) did by e

-- In every registry that is reached from the empty one by accepted calls, the index of an owner
-- lists exactly the devices of that owner, the index of a type exactly the devices of that type,
-- and a device is registered exactly if it has a document.
pub registry_indexes :
    {r : DeviceRegistry} (owner : Address) (device_type did : String)
    → Reachable r
    → (listed did (lookup_or [] owner r.devices_by_owner)
        ≡ has_key (λ (d : DeviceInfo). d.owner) owner (lookup did r.devices))
      × (listed did (lookup_or [] device_type r.devices_by_type)
          ≡ has_key (λ (d : DeviceInfo). d.device_type) device_type (lookup did r.devices))
      × (contains_key did r.did_documents ≡ contains_key did r.devices)
registry_indexes owner device_type did h =
    let c = Reachable-IsConsistent h in
    (c.by_owner owner did, c.by_type device_type did, c.documented did)
