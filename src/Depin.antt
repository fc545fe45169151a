-- ===== src/Depin.antt =====
-- crates/frychain-depin: device identifiers, the registry, the market for
-- device data, and the errors of the crate.
mod Tests
pub mod Did
pub mod Registry
pub mod Market
pub mod M2m
use fry_chain.Prelude.{String}

-- `DePINError`. The numbers in the messages are left out.
pub data DepinError : Type 0 where
  device_not_found device_already_registered device_suspended : String → DepinError
  invalid_device_signature unauthorized : DepinError
  invalid_did_document invalid_data_listing storage_error : String → DepinError

-- `DePINResult`
pub data DepinResult {ℓ} (A : Type ℓ) : Type ℓ where
  ok : A → DepinResult A
  err : DepinError → DepinResult A
