-- ===== src/Lib.antt =====
-- Fry Chain: a proof-of-work chain for device networks, written in Rust as a set of crates under
-- crates/. This library models the parts that decide what the chain's state is, and proves what
-- they promise.
--
-- The program. frychain-core has the primitives: hashes, amounts, addresses, the account state and
-- the record of its changes, Merkle trees, transactions, blocks and the chain's configuration.
-- frychain-storage keeps blocks in a key-value database. frychain-consensus decides which blocks are
-- accepted, and which block is the head of the chain. frychain-vm runs contracts under a gas meter.
-- frychain-depin keeps the registry of devices and a market for their data. A block's transactions
-- root is the root of a Merkle tree over the hashes of its signed transactions; the validation of a
-- block recomputes it; the configuration sets the rewards and the minimum gas price. The import of a
-- block reads its parent from the store, validates the block against it, checks its proof of work,
-- stores it, and goes on to the pending block that waited for it.
--
-- The files.
--   Prelude, Prelude/*   names of the libraries, tests into Bool, lists measured by native numbers,
--                        the class of keys with a decidable equality, and panics as values
--   Results              `Result` with its `?`
--   Words, Words/*       u64 and u128 arithmetic: wrapping, checked and saturating; bits and bytes
--   HashMap, HashMap/*   `HashMap` as a list of entries with distinct keys
--   Core/Hash            crates/frychain-core/src/types.rs: `Hash256`, `meets_difficulty`
--   Core/Difficulty      the same file: `Difficulty::to_target`
--   Core/Amount          the same file: tokens, gas, gas prices, nonces, heights
--   Core/Address         crates/frychain-core/src/address.rs: addresses and derived addresses
--   Core/State           crates/frychain-core/src/state.rs: accounts, transfers, code, storage
--   Core/Changes         the same file: `StateChanges` and `apply_changes`
--   Core/Config          crates/frychain-core/src/config.rs: presets and the reward schedule
--   Core/Merkle          crates/frychain-core/src/merkle.rs: `MerkleTree`, `MerkleProof`
--   Core/Transaction     crates/frychain-core/src/transaction.rs: transactions and their hashes
--   Core/Block           crates/frychain-core/src/block.rs: headers, bodies, structural checks
--   Storage              crates/frychain-storage/src/lib.rs and db.rs: `StorageError`, `Database`
--   Storage/Chain        crates/frychain-storage/src/chain.rs: `ChainStore`; its abstract view, and what
--                        it is to represent one, are in Storage/Chain/Spec
--   Storage/Toy          a database in memory, codecs and blocks, for the tests; with
--                        Storage/Paid, a block with a transaction
--   Consensus/Validation crates/frychain-consensus/src/validation.rs: `BlockValidator`
--   Consensus/Chain      crates/frychain-consensus/src/chain.rs: `Blockchain`; the import of
--                        a block is in Consensus/Chain/Import
--   Depin/Did            crates/frychain-depin/src/did.rs: identifiers and documents of devices
--   Depin/Registry       crates/frychain-depin/src/registry.rs: `DeviceInfo`, `DeviceRegistry`
--   Depin/Market         crates/frychain-depin/src/data.rs: `DataListing`, `DataMarketplace`
--   Depin/M2m            crates/frychain-depin/src/m2m.rs: `M2MTransaction`, `M2MProtocol`
--   Vm/Gas               crates/frychain-vm/src/gas.rs: `GasMeter` and the cost functions
--   Vm/Types             crates/frychain-vm/src/types.rs and lib.rs: contexts, results, errors
--   Vm/Action            the state monad of the machines, with errors and panics, the loop of
--                        `execute`, and what a discipline on the states keeps
--   Vm/Avm               crates/frychain-vm/src/avm.rs: the TEAL interpreter; its instructions are
--                        in Vm/Avm/Ops, `step` and `execute` in Vm/Avm/Run
--   Vm/Sbf               crates/frychain-vm/src/sbf.rs: the register machine, with its memory in
--                        Vm/Sbf/Memory, its instructions in Vm/Sbf/Ops, `step` and `execute` in
--                        Vm/Sbf/Run
-- Below each of these, files named for what they prove. The Tests files apply the theorems to
-- concrete inputs.
--
-- How the code is modelled. A struct is a record and an enum a data type, with the source's fields
-- and constructors where the spelling allows; a function is named as in the source, and where two
-- share a name a comment gives the source's. A method that changes `self` returns the new value.
-- Machine integers are natural numbers with the wrap-around of the release build written out. A
-- byte string is a list of numbers. An error is a value of a result type; a panic (an index out of
-- bounds, a division by zero) is one too: `panic` in Prelude/Panics, `none` in Core/Config, `crash`
-- in the machines. The machines are a state monad with errors: after an error the state is kept as
-- the code leaves it. Messages of errors leave out the numbers that they format.
--
-- SHA2-256 and SHA3-256, CryptoNight, the verification of signatures, the clock, random ids, the
-- size of a serialized block, bincode, JSON, the UTF-8 bytes of a string and the text of a hash are
-- arguments of the definitions that use them. Core/Merkle/Binding and Storage/Chain assume of a
-- hash that it has 32 bytes. RocksDB is the record `Rocks`, and a write may fail; the theorems
-- assume `IsLawful`: after a write that succeeds, a read finds the last value written to its column
-- family and key. Of bincode they assume that a value that was serialized reads back (`AreCodecs`,
-- `AreAllCodecs`),
-- and of the text of a hash that no two hashes share one.
--
-- Fuel. The search of the next power of two has fuel for the number itself, the construction of a
-- Merkle tree for the number of its leaves, a proof for one more: running out is a panic in the
-- model, and the theorems that these functions are `done` show that it does not happen. The loop of a
-- machine has rounds for half of the gas limit and one more, since every instruction charges two
-- units of gas. Parsing a program has a round for every eight bytes. An import has one round more
-- than there are pending blocks, since each round but the last takes one of them out.
--
-- Not modelled: floating point (the adjustment of the difficulty with `next_difficulty`, hash
-- rates), text and JSON forms, threads and sockets, the cryptographic libraries, the sparse Merkle
-- tree, the Pact and Kaspa machines, the store of the account state, the network and the
-- command-line tools. The locks of the chain are not modelled
-- either: an import is a sequence of steps without others in between.
pub mod Prelude
pub mod Words
pub mod HashMap
pub mod Results
pub mod Storage
pub mod Core
pub mod Consensus
pub mod Depin
pub mod Vm
