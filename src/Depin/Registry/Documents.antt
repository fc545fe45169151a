-- ===== src/Depin/Registry/Documents.antt =====
-- What an update of the document of a device allows.
-- The code is crates/frychain-depin/src/registry.rs.
use fry_chain.Depin.{ok}
use fry_chain.Prelude.{ℕ, String, ◌≡◌, refl, ◌≢◌, some, same_refl, nat_eq, list_eq, string_eq}
use fry_chain.Depin.Did.{DidDocument, validate}
use fry_chain.Core.Hash.{Hash256}
use fry_chain.Depin.Registry.{update_did_document, DeviceRegistry, DeviceInfo}
use fry_chain.Core.Address.{address_eq}
use fry_chain.HashMap.{lookup, insert}
use fry_chain.HashMap.Laws.{lookup-insert_self}

module _ (document_hash : DidDocument → Hash256) (now : ℕ) where
  -- The owner of a registered device can store a valid document that describes another one: the
  -- update is accepted although the document's identifier is not that of the device.
  pub update_accepts_other_id :
      (r : DeviceRegistry) (did : String) (d : DeviceInfo) (document : DidDocument)
      → lookup did r.devices ≡ some d
      → validate document ≡ ok tt
      → document.id.did ≢ did
      → (r' : DeviceRegistry) × (update_did_document document_hash now r did document d.owner
          ≡ ok r')
        × (stored : DidDocument) × (lookup did r'.did_documents ≡ some stored)
        × (stored.id.did ≢ did)
  unfolding update_did_document
  update_accepts_other_id r did d document found valid other =
      let r' = record r {
        devices = insert did (record d { did_doc_hash = document_hash document }) r.devices;
        did_documents = insert did document r.did_documents;
      } in
      (
        r',
        rw (update_did_document, valid, found, same_refl d.owner) refl,
        document,
        lookup-insert_self did document r.did_documents,
        other,
      )
