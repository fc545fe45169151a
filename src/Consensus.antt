-- ===== src/Consensus.antt =====
-- crates/frychain-consensus: which blocks are accepted.
mod Tests
pub mod Validation
pub mod Chain
