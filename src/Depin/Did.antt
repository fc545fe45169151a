-- ===== src/Depin/Did.antt =====
-- crates/frychain-depin/src/did.rs: device identifiers and DID documents. The clock is an argument.
use fry_chain.Depin.{ok, err, DepinResult, invalid_did_document}
use fry_chain.Prelude.{ℕ, ◌^◌, String, Bool, Option, List, [], ◌∷◌, ◌++◌}
use fry_chain.Core.Address.{Address}
use fry_chain.Words.{wrapping_add}

-- `DeviceDID`
pub record DeviceDid : Type 0 where
  pub did : String
  pub address : Address

pub record VerificationMethod : Type 0 where
  pub id : String
  pub controller : String
  pub method_type : String
  pub public_key_multibase : String

pub record ServiceEndpoint : Type 0 where
  pub id : String
  pub service_type : String
  pub service_endpoint : String
  pub description : Option String

pub record DeviceAttribute : Type 0 where
  pub name : String
  pub value : String
  pub attr_type : String
  pub public : Bool

-- `DIDDocument`
pub record DidDocument : Type 0 where
  pub id : DeviceDid
  pub verification_method : List VerificationMethod
  pub authentication : List String
  pub service : List ServiceEndpoint
  pub attributes : List DeviceAttribute
  pub created : ℕ
  pub updated : ℕ
  pub version : ℕ

abbrev touch_document : ℕ → DidDocument → DidDocument
touch_document now d = record d { updated = now; version = wrapping_add (2 ^ 32) d.version 1 }

unfoldable pub add_service : ℕ → DidDocument → ServiceEndpoint → DidDocument
add_service now d s = touch_document now (record d { service = d.service ++ s ∷ [] })

unfoldable pub add_attribute : ℕ → DidDocument → DeviceAttribute → DidDocument
add_attribute now d a = touch_document now (record d { attributes = d.attributes ++ a ∷ [] })

-- `DIDDocument::validate`
unfoldable pub validate : DidDocument → DepinResult (Unit {0})
validate d = elim d.verification_method [
  | [] ↦ err (invalid_did_document "No verification method")
  | _ ∷ _ ↦ elim d.authentication [
    | [] ↦ err (invalid_did_document "No authentication method")
    | _ ∷ _ ↦ ok tt
  ]
]
