-- ===== src/Vm.antt =====
-- crates/frychain-vm: gas metering and the contract machines.
mod Tests
pub mod Gas
pub mod Types
pub mod Action
pub mod Avm
pub mod Sbf
