-- ===== src/Depin/Registry/Consistent.antt =====
-- Every operation of the registry keeps its indexes exact.
-- The code is crates/frychain-depin/src/registry.rs.
use fry_chain.Depin.{ok}
use fry_chain.Prelude.{
  ℕ, String, ◌≡◌, inl, inr, true, not, ◌&&◌, ◌||◌, some, arith, Option-cases, same, nat_eq, list_eq,
  string_eq, refl, subst, none,
}
use fry_chain.Depin.Registry.{
  DeviceRegistry, register, update_did_document, change_status, deregister, DeviceInfo, new_device,
  DeviceStatus, set_status, remove_from,
}
use fry_chain.HashMap.{HashMap, contains_key, lookup, insert, erase, push_to}
use fry_chain.Depin.Registry.Indexes.{IsIndex, same-IsIndex, push-IsIndex, remove-IsIndex}
use fry_chain.Depin.Did.{DidDocument}
use fry_chain.Core.Address.{Address, address_eq}
use fry_chain.HashMap.Laws.{lookup-insert, lookup-erase}
use fry_chain.Core.Hash.{Hash256}

-- What every registry keeps: both indexes are exact, and the devices are those with a document.
pub record IsConsistent (r : DeviceRegistry) : Type 0 where
  pub by_owner : IsIndex (λ (d : DeviceInfo). d.owner) r.devices r.devices_by_owner
  pub by_type : IsIndex (λ (d : DeviceInfo). d.device_type) r.devices r.devices_by_type
  pub documented : (did : String) → contains_key did r.did_documents ≡ contains_key did r.devices

contains_key-insert :
    {V : Type 0} (k j : String) (v : V) (m : HashMap String V)
    → contains_key j (insert k v m) ≡ (same k j || contains_key j m)
contains_key-insert k j v m = ground (arith, lookup-insert k j v m)

contains_key-erase :
    {V : Type 0} (k j : String) (m : HashMap String V)
    → contains_key j (erase k m) ≡ (not (same k j) && contains_key j m)
contains_key-erase k j m = ground (arith, lookup-erase k j m)

contains_key_found :
    {V : Type 0} (k : String) (v : V) (m : HashMap String V)
    → lookup k m ≡ some v
    → contains_key k m ≡ true
contains_key_found k v m h = ground (arith, h)

module _ (r : DeviceRegistry) (c : IsConsistent r) where
  pub register-IsConsistent :
      (document_hash : DidDocument → Hash256) (now : ℕ) (owner : Address) (document : DidDocument)
      (device_type : String) {x : DeviceRegistry × DeviceInfo}
      → register document_hash now r owner document device_type ≡ ok x
      → IsConsistent x.0
  unfolding register new_device
  register-IsConsistent document_hash now owner document device_type {x} h =
      let did = document.id.did in
      let info = new_device now document.id owner (document_hash document) device_type in
      let new : lookup did r.devices ≡ none = ground (arith, h) in
      let added : record {
        devices = insert did info r.devices;
        did_documents = insert did document r.did_documents;
        devices_by_owner = push_to owner did r.devices_by_owner;
        devices_by_type = push_to device_type did r.devices_by_type;
      }
          ≡ x.0 =
        ground (arith, h) in
      subst (λ s. IsConsistent s) added
        (record {
          by_owner =
              push-IsIndex (λ d. d.owner) r.devices r.devices_by_owner did info new c.by_owner;
          by_type =
              push-IsIndex (λ d. d.device_type) r.devices r.devices_by_type did info new c.by_type;
          documented = λ x. ground (
            arith,
            c.documented x,
            contains_key-insert did x info r.devices,
            contains_key-insert did x document r.did_documents,
          );
        })

  pub update-IsConsistent :
      (document_hash : DidDocument → Hash256) (now : ℕ) (did : String) (document : DidDocument)
      (by : Address) {r' : DeviceRegistry}
      → update_did_document document_hash now r did document by ≡ ok r'
      → IsConsistent r'
  unfolding update_did_document
  update-IsConsistent document_hash now did document by {r'} h =
      elim (Option-cases (lookup did r.devices)) [
        | inl absent ↦ absurd (ground (arith, absent))
        | inr (d, found) ↦
            let d' = record d { did_doc_hash = document_hash document } in
            let changed : record r {
              devices = insert did d' r.devices;
              did_documents = insert did document r.did_documents;
            }
                ≡ r' =
              ground (arith, found) in
            subst (λ s. IsConsistent s) changed
              (record {
                by_owner =
                    same-IsIndex (λ d. d.owner) r.devices r.devices_by_owner did d d' found refl
                      c.by_owner;
                by_type =
                    same-IsIndex (λ d. d.device_type) r.devices r.devices_by_type did d d' found
                      refl c.by_type;
                documented = λ x. ground (
                  arith,
                  c.documented x,
                  contains_key-insert did x d' r.devices,
                  contains_key-insert did x document r.did_documents,
                );
              })
      ]

  rewritten :
      (did : String) (d d' : DeviceInfo)
      → lookup did r.devices ≡ some d
      → d'.owner ≡ d.owner
      → d'.device_type ≡ d.device_type
      → IsConsistent (record r { devices = insert did d' r.devices })
  rewritten did d d' found owner kind = record {
    by_owner =
        same-IsIndex (λ d. d.owner) r.devices r.devices_by_owner did d d' found owner c.by_owner;
    by_type =
        same-IsIndex (λ d. d.device_type) r.devices r.devices_by_type did d d' found kind c.by_type;
    documented = λ x. ground (
      arith,
      c.documented x,
      found,
      contains_key-insert did x d' r.devices,
      string_eq.beq_iff did x,
    );
  }

  pub change-IsConsistent :
      (status : DeviceStatus) (did : String) (by : Address) {r' : DeviceRegistry}
      → change_status status r did by ≡ ok r'
      → IsConsistent r'
  unfolding change_status
  change-IsConsistent status did by {r'} h = elim (Option-cases (lookup did r.devices)) [
    | inl absent ↦ absurd (ground (arith, absent))
    | inr (d, found) ↦
        let d' = set_status status d in
        let changed : record r { devices = insert did d' r.devices } ≡ r' = ground (arith, found) in
        subst (λ s. IsConsistent s) changed (rewritten did d d' found refl refl)
  ]

  pub deregister-IsConsistent :
      (did : String) (by : Address) {r' : DeviceRegistry}
      → deregister r did by ≡ ok r'
      → IsConsistent r'
  unfolding deregister
  deregister-IsConsistent did by {r'} h = elim (Option-cases (lookup did r.devices)) [
    | inl absent ↦ absurd (ground (arith, absent))
    | inr (d, found) ↦
        let changed : record {
          devices = erase did r.devices;
          did_documents = erase did r.did_documents;
          devices_by_owner = remove_from d.owner did r.devices_by_owner;
          devices_by_type = remove_from d.device_type did r.devices_by_type;
        }
            ≡ r' =
          ground (arith, found) in
        subst (λ s. IsConsistent s) changed
          (record {
            by_owner =
                remove-IsIndex (λ d. d.owner) r.devices r.devices_by_owner did d found c.by_owner;
            by_type =
                remove-IsIndex (λ d. d.device_type) r.devices r.devices_by_type did d found
                  c.by_type;
            documented = λ x. ground (
              arith,
              c.documented x,
              contains_key-erase did x r.devices,
              contains_key-erase did x r.did_documents,
            );
          })
  ]
