-- ===== src/Depin/Registry/Owners.antt =====
-- Whose calls leave a device as it is.
-- The code is crates/frychain-depin/src/registry.rs.
use fry_chain.Depin.{ok}
use fry_chain.Depin.Did.{DidDocument}
use fry_chain.Depin.Registry.{
  DeviceRegistry, register, update_did_document, change_status, deregister, DeviceInfo,
  DeviceStatus, new_device, set_status, remove_from,
}
use fry_chain.HashMap.{lookup, insert, erase, push_to}
use fry_chain.HashMap.Laws.{lookup-insert_ne, lookup-erase_ne}
use fry_chain.Core.Address.{Address, address_eq, address_beq_iff}
use fry_chain.Core.Hash.{Hash256}
use fry_chain.Prelude.{
  ℕ, String, ◌≡◌, refl, sym, ap, ◌∙◌, subst, ◌≢◌, inl, inr, true, none, some, arith, Option-cases,
  same, nat_eq, list_eq, string_eq,
}

-- One registry comes from the other by accepted calls: anybody registers devices, and callers other
-- than `owner` update documents, set statuses and deregister devices.
pub data CallsOfOthers (owner : Address) (start : DeviceRegistry) : DeviceRegistry → Type 0 where
  no_call : CallsOfOthers owner start start
  added :
      {r : DeviceRegistry} (document_hash : DidDocument → Hash256) (now : ℕ) (by : Address)
      (document : DidDocument) (device_type : String) {x : DeviceRegistry × DeviceInfo}
      → register document_hash now r by document device_type ≡ ok x
      → CallsOfOthers owner start r
      → CallsOfOthers owner start x.0
  updated :
      {r r' : DeviceRegistry} (document_hash : DidDocument → Hash256) (now : ℕ) (did : String)
      (document : DidDocument) (by : Address)
      → owner ≢ by
      → update_did_document document_hash now r did document by ≡ ok r'
      → CallsOfOthers owner start r
      → CallsOfOthers owner start r'
  changed :
      {r r' : DeviceRegistry} (status : DeviceStatus) (did : String) (by : Address)
      → owner ≢ by
      → change_status status r did by ≡ ok r'
      → CallsOfOthers owner start r
      → CallsOfOthers owner start r'
  deregistered :
      {r r' : DeviceRegistry} (did : String) (by : Address)
      → owner ≢ by
      → deregister r did by ≡ ok r'
      → CallsOfOthers owner start r
      → CallsOfOthers owner start r'

-- The device and its document read the same in both registries.
abbrev pub SameDevice : String → DeviceRegistry → DeviceRegistry → Type 0
SameDevice did r r' =
    (lookup did r'.devices ≡ lookup did r.devices)
    × (lookup did r'.did_documents ≡ lookup did r.did_documents)

module _ (r : DeviceRegistry) (did : String) (d : DeviceInfo)
    (here : lookup did r.devices ≡ some d) where
  -- A device of the caller is not one of another owner.
  other_key :
      (key : String) (e : DeviceInfo) (by : Address)
      → lookup key r.devices ≡ some e
      → same e.owner by ≡ true
      → d.owner ≢ by
      → key ≢ did
  other_key key e by found own other same_key =
      let same_device : d ≡ e =
        good_some d e (sym here ∙ ap (λ k. lookup k r.devices) (sym same_key) ∙ found) in
      other (ap (λ (x : DeviceInfo). x.owner) same_device ∙ (address_beq_iff e.owner by).0 own)
    where
      good_some : (a b : DeviceInfo) → some a ≡ some b → a ≡ b
      good_some a b e = cc

  register-SameDevice :
      (document_hash : DidDocument → Hash256) (now : ℕ) (by : Address) (document : DidDocument)
      (device_type : String) {x : DeviceRegistry × DeviceInfo}
      → register document_hash now r by document device_type ≡ ok x
      → SameDevice did r x.0
  unfolding register new_device
  register-SameDevice document_hash now by document device_type {x} h =
      let key = document.id.did in
      let info = new_device now document.id by (document_hash document) device_type in
      let new : lookup key r.devices ≡ none = ground (arith, h) in
      let after : record {
        devices = insert key info r.devices;
        did_documents = insert key document r.did_documents;
        devices_by_owner = push_to by key r.devices_by_owner;
        devices_by_type = push_to device_type key r.devices_by_type;
      }
          ≡ x.0 =
        ground (arith, h) in
      let other : key ≢ did = λ e. clash (sym new ∙ ap (λ k. lookup k r.devices) e ∙ here) in
      subst (λ s. SameDevice did r s) after
        (
          lookup-insert_ne key did info r.devices other,
          lookup-insert_ne key did document r.did_documents other,
        )
    where
      clash : none ≡ some d → ⊥
      clash e = cc

  update-SameDevice :
      (document_hash : DidDocument → Hash256) (now : ℕ) (key : String) (document : DidDocument)
      (by : Address) {r' : DeviceRegistry}
      → d.owner ≢ by
      → update_did_document document_hash now r key document by ≡ ok r'
      → SameDevice did r r'
  unfolding update_did_document
  update-SameDevice document_hash now key document by {r'} stranger h =
      elim (Option-cases (lookup key r.devices)) [
        | inl absent ↦ absurd (ground (arith, absent))
        | inr (e, found) ↦
            let e' = record e { did_doc_hash = document_hash document } in
            let own : same e.owner by ≡ true = ground (arith, found) in
            let after : record r {
              devices = insert key e' r.devices;
              did_documents = insert key document r.did_documents;
            }
                ≡ r' =
              ground (arith, found) in
            let other = other_key key e by found own stranger in
            subst (λ s. SameDevice did r s) after
              (
                lookup-insert_ne key did e' r.devices other,
                lookup-insert_ne key did document r.did_documents other,
              )
      ]

  change-SameDevice :
      (status : DeviceStatus) (key : String) (by : Address) {r' : DeviceRegistry}
      → d.owner ≢ by
      → change_status status r key by ≡ ok r'
      → SameDevice did r r'
  unfolding change_status
  change-SameDevice status key by {r'} stranger h = elim (Option-cases (lookup key r.devices)) [
    | inl absent ↦ absurd (ground (arith, absent))
    | inr (e, found) ↦
        let e' = set_status status e in
        let own : same e.owner by ≡ true = ground (arith, found) in
        let after : record r { devices = insert key e' r.devices } ≡ r' = ground (arith, found) in
        let other = other_key key e by found own stranger in
        subst (λ s. SameDevice did r s) after (lookup-insert_ne key did e' r.devices other, refl)
  ]

  deregister-SameDevice :
      (key : String) (by : Address) {r' : DeviceRegistry}
      → d.owner ≢ by
      → deregister r key by ≡ ok r'
      → SameDevice did r r'
  unfolding deregister
  deregister-SameDevice key by {r'} stranger h = elim (Option-cases (lookup key r.devices)) [
    | inl absent ↦ absurd (ground (arith, absent))
    | inr (e, found) ↦
        let own : same e.owner by ≡ true = ground (arith, found) in
        let after : record {
          devices = erase key r.devices;
          did_documents = erase key r.did_documents;
          devices_by_owner = remove_from e.owner key r.devices_by_owner;
          devices_by_type = remove_from e.device_type key r.devices_by_type;
        }
            ≡ r' =
          ground (arith, found) in
        let other = other_key key e by found own stranger in
        subst (λ s. SameDevice did r s) after
          (lookup-erase_ne key did r.devices other, lookup-erase_ne key did r.did_documents other)
  ]

-- Whatever devices are registered, and whatever callers other than its owner do by accepted calls to
-- update documents, to set statuses and to deregister devices, a registered device stays as it is, with
-- its status and owner, and so does its document. Changes through `get_device_mut`, which takes no
-- caller, are not among the calls.
pub strangers_leave_device :
    (r : DeviceRegistry) (did : String) (d : DeviceInfo)
    → lookup did r.devices ≡ some d
    → (r' : DeviceRegistry) → CallsOfOthers d.owner r r'
    → (lookup did r'.devices ≡ some d) × (lookup did r'.did_documents ≡ lookup did r.did_documents)
strangers_leave_device r did d found _ no_call = (found, refl)
strangers_leave_device r did d found _
      (added {r = q} document_hash now by document device_type e calls) =
    let (device, document_kept) = strangers_leave_device r did d found q calls in
    let (a, b) = register-SameDevice q did d device document_hash now by document device_type e in
    (a ∙ device, b ∙ document_kept)
strangers_leave_device r did d found _
      (updated {r = q} document_hash now key document by other e calls) =
    let (device, document_kept) = strangers_leave_device r did d found q calls in
    let (a, b) = update-SameDevice q did d device document_hash now key document by other e in
    (a ∙ device, b ∙ document_kept)
strangers_leave_device r did d found _ (changed {r = q} status key by other e calls) =
    let (device, document_kept) = strangers_leave_device r did d found q calls in
    let (a, b) = change-SameDevice q did d device status key by other e in
    (a ∙ device, b ∙ document_kept)
strangers_leave_device r did d found _ (deregistered {r = q} key by other e calls) =
    let (device, document_kept) = strangers_leave_device r did d found q calls in
    let (a, b) = deregister-SameDevice q did d device key by other e in
    (a ∙ device, b ∙ document_kept)
