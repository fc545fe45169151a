-- ===== src/Storage.antt =====
-- crates/frychain-storage/src/lib.rs and db.rs: the errors of the storage layer, and the database.
-- RocksDB is not code of the repository: it is a parameter, and its laws are hypotheses.
pub mod Batches
pub mod Chain
pub mod Toy
pub mod Paid
use fry_chain.Prelude.{
  ℕ, Bool, true, false, ◌||◌, ◌&&◌, ◌≡◌, String, Option, none, some, List, [], ◌∷◌, ◌++◌,
  if◌then◌else◌, same, string_eq, nat_eq, list_eq, not,
}
use fry_chain.Results.{Result, good, bad, ◌>>=◌}

pub data StorageError : Type 0 where
  database_error block_not_found transaction_not_found account_not_found : String → StorageError
  serialization_error deserialization_error io_error : String → StorageError

abbrev pub StorageResult {ℓ} : Type ℓ → Type ℓ
StorageResult A = Result StorageError A

-- `pub mod cf`
abbrev pub headers_cf : String
headers_cf = "headers"

abbrev pub bodies_cf : String
bodies_cf = "bodies"

abbrev pub height_to_hash_cf : String
height_to_hash_cf = "height_to_hash"

abbrev pub transactions_cf : String
transactions_cf = "transactions"

abbrev pub receipts_cf : String
receipts_cf = "receipts"

abbrev pub accounts_cf : String
accounts_cf = "accounts"

abbrev pub code_cf : String
code_cf = "code"

abbrev pub storage_cf : String
storage_cf = "storage"

abbrev pub meta_cf : String
meta_cf = "meta"

abbrev pub devices_cf : String
devices_cf = "devices"

-- `ALL_CFS`
abbrev pub all_cfs : List String
all_cfs =
    headers_cf ∷ bodies_cf ∷ height_to_hash_cf ∷ transactions_cf ∷ receipts_cf ∷ accounts_cf
    ∷ code_cf ∷ storage_cf ∷ meta_cf ∷ devices_cf ∷ []

abbrev is_open : String → List String → Bool
is_open name [] = false
is_open name (cf ∷ cfs) = same cf name || is_open name cfs

-- An entry of RocksDB's `WriteBatch`.
pub data WriteOp : Type 0 where
  put_op : String → List ℕ → List ℕ → WriteOp
  delete_op : String → List ℕ → WriteOp

-- RocksDB: its calls may fail with a message.
pub record Rocks : Type 1 where
  pub Db : Type 0
  pub get_cf : Db → String → List ℕ → Result String (Option (List ℕ))
  pub put_cf : Db → String → List ℕ → List ℕ → Result String Db
  pub delete_cf : Db → String → List ℕ → Result String Db
  pub write : Db → List WriteOp → Result String Db

-- What a reader of one key sees after a batch, given what it saw before.
abbrev pub replayed :
    List WriteOp
    → String
    → List ℕ
    → Result String (Option (List ℕ))
    → Result String (Option (List ℕ))
replayed [] name key seen = seen
replayed (put_op cf k v ∷ ops) name key seen =
    replayed ops name key (if same cf name && same k key then good (some v) else seen)
replayed (delete_op cf k ∷ ops) name key seen =
    replayed ops name key (if same cf name && same k key then good none else seen)

-- The documented behaviour: a write that succeeds is seen by every later read of its keys, and by no
-- read of another key.
pub record IsLawful (R : Rocks) : Type 0 where
  pub get-put :
      (db db' : R.Db) (cf : String) (k v : List ℕ) (name : String) (key : List ℕ)
      → R.put_cf db cf k v ≡ good db'
      → R.get_cf db' name key ≡ replayed (put_op cf k v ∷ []) name key (R.get_cf db name key)
  pub get-delete :
      (db db' : R.Db) (cf : String) (k : List ℕ) (name : String) (key : List ℕ)
      → R.delete_cf db cf k ≡ good db'
      → R.get_cf db' name key ≡ replayed (delete_op cf k ∷ []) name key (R.get_cf db name key)
  pub get-write :
      (db db' : R.Db) (ops : List WriteOp) (name : String) (key : List ℕ)
      → R.write db ops ≡ good db'
      → R.get_cf db' name key ≡ replayed ops name key (R.get_cf db name key)

-- `unwrap_or(false)`
abbrev pub good_or_false : StorageResult Bool → Bool
good_or_false (good b) = b
good_or_false (bad e) = false

-- `map_err(|e| StorageError::DatabaseError(e.to_string()))`
abbrev pub database_result {ℓ} : {A : Type ℓ} → Result String A → StorageResult A
database_result (good a) = good a
database_result (bad message) = bad (database_error message)

-- `db.cf_handle(cf_name)`, which is there for the families that `open` has made.
abbrev pub with_handle {ℓ} : {A : Type ℓ} → String → StorageResult A → StorageResult A
with_handle name result =
    if is_open name all_cfs then result else bad (database_error "CF not found")

pub data BatchOpType : Type 0 where
  put_type delete_type : BatchOpType

pub record BatchOp : Type 0 where
  pub cf_name : String
  pub op_type : BatchOpType
  pub key : List ℕ
  pub value : Option (List ℕ)

-- `StorageBatch::put`, `StorageBatch::delete`; a batch is the list of its operations.
unfoldable pub batch_put : List BatchOp → String → List ℕ → List ℕ → List BatchOp
batch_put batch cf key value =
    batch ++ record { cf_name = cf; op_type = put_type; key = key; value = some value } ∷ []

unfoldable pub batch_delete : List BatchOp → String → List ℕ → List BatchOp
batch_delete batch cf key =
    batch ++ record { cf_name = cf; op_type = delete_type; key = key; value = none } ∷ []

-- An operation of a batch for RocksDB. `op.value.as_ref().unwrap()` is not reached without a value.
abbrev pub write_op : BatchOp → WriteOp
write_op op = elim op.op_type [
  | put_type ↦ put_op op.cf_name op.key (elim op.value [ none ↦ [] | some v ↦ v ])
  | delete_type ↦ delete_op op.cf_name op.key
]

-- The loop of `write_batch`, which ends at an unknown family.
abbrev pub write_ops : List BatchOp → StorageResult (List WriteOp)
write_ops [] = good []
write_ops (op ∷ ops) = with_handle op.cf_name (do rest ← write_ops ops; good (write_op op ∷ rest))

module _ (R : Rocks) where
  unfoldable pub get : R.Db → String → List ℕ → StorageResult (Option (List ℕ))
  get db cf key = with_handle cf (database_result (R.get_cf db cf key))

  unfoldable pub put : R.Db → String → List ℕ → List ℕ → StorageResult R.Db
  put db cf key value = with_handle cf (database_result (R.put_cf db cf key value))

  unfoldable pub delete : R.Db → String → List ℕ → StorageResult R.Db
  delete db cf key = with_handle cf (database_result (R.delete_cf db cf key))

  abbrev pub is_some {ℓ} : {A : Type ℓ} → Option A → Bool
  is_some none = false
  is_some (some a) = true

  unfoldable pub contains : R.Db → String → List ℕ → StorageResult Bool
  unfolding get
  contains db cf key = do value ← get db cf key; good (is_some value)

  unfoldable pub write_batch : R.Db → List BatchOp → StorageResult R.Db
  write_batch db batch = do ops ← write_ops batch; database_result (R.write db ops)
