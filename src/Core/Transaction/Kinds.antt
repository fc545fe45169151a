-- ===== src/Core/Transaction/Kinds.antt =====
-- The numbers of the transaction types.
-- The code is crates/frychain-core/src/transaction.rs.
use fry_chain.Prelude.{ℕ, ◌≡◌, ◌↔◌, some, arith}
use fry_chain.Core.Transaction.{from_type_id, type_id, TransactionType}

-- The number of a type reads back as the type, and a number that reads as a type is its number.
pub from_type_id-type_id :
    (t : TransactionType) (id : ℕ)
    → (from_type_id (type_id t) ≡ some t) × ((from_type_id id ≡ some t) ↔ (type_id t ≡ id))
unfolding from_type_id type_id
from_type_id-type_id t id = ground arith
