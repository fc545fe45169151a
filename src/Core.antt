-- ===== src/Core.antt =====
-- crates/frychain-core: the primitives of the chain.
mod Tests
pub mod Hash
pub mod Difficulty
pub mod Amount
pub mod Address
pub mod Merkle
pub mod Transaction
pub mod Block
pub mod State
pub mod Changes
pub mod Config
