-- ===== src/Core/Changes.antt =====
-- crates/frychain-core/src/state.rs: `StateChanges`, the record of what a transaction changed, and
-- how it is applied to the account state. SHA3-256 is the argument `sha3`.
pub mod Apply
use fry_chain.HashMap.{HashMap, lookup, lookup_or, insert, erase, alter}
use fry_chain.Core.Hash.{Hash256}
use fry_chain.Core.Address.{Address, address_eq}
use fry_chain.Core.State.{Account, AccountState, set_account, set_code, set_storage}
use fry_chain.Prelude.{ℕ, List, [], ◌∷◌, ◌++◌, Eq, nat_eq, list_eq, string_eq}

pub record StateChanges : Type 0 where
  pub modified_accounts : HashMap Address Account
  pub deleted_accounts : List Address
  pub created_contracts : List (Address × List ℕ)
  pub storage_changes : HashMap Address (HashMap Hash256 Hash256)

abbrev pub new_changes : StateChanges
new_changes = record {
  modified_accounts = [];
  deleted_accounts = [];
  created_contracts = [];
  storage_changes = [];
}

unfoldable pub modify_account : StateChanges → Account → StateChanges
modify_account c a = record c { modified_accounts = insert a.address a c.modified_accounts }

unfoldable pub delete_account : StateChanges → Address → StateChanges
delete_account c a = record c {
  deleted_accounts = c.deleted_accounts ++ a ∷ [];
  modified_accounts = erase a c.modified_accounts;
}

unfoldable pub create_contract : StateChanges → Address → List ℕ → StateChanges
create_contract c a code = record c { created_contracts = c.created_contracts ++ (a, code) ∷ [] }

-- `StateChanges::set_storage`
unfoldable pub change_storage : StateChanges → Address → Hash256 → Hash256 → StateChanges
change_storage c a key value = record c {
  storage_changes = alter [] (insert key value) a c.storage_changes;
}

-- `HashMap::extend`
abbrev pub extend {ℓ κ} :
    {K : Type ℓ} {V : Type κ} ⦃e : Eq K⦄ → HashMap K V → HashMap K V → HashMap K V
extend m [] = m
extend m ((k, v) ∷ other) = extend (insert k v m) other

-- The loop over `other.storage_changes` in `merge`.
abbrev pub extend_each :
    HashMap Address (HashMap Hash256 Hash256)
    → HashMap Address (HashMap Hash256 Hash256)
    → HashMap Address (HashMap Hash256 Hash256)
extend_each m [] = m
extend_each m ((a, changes) ∷ other) = extend_each (alter [] (λ old. extend old changes) a m) other

unfoldable pub merge : StateChanges → StateChanges → StateChanges
merge c other = record {
  modified_accounts = extend c.modified_accounts other.modified_accounts;
  deleted_accounts = c.deleted_accounts ++ other.deleted_accounts;
  created_contracts = c.created_contracts ++ other.created_contracts;
  storage_changes = extend_each c.storage_changes other.storage_changes;
}

-- The four loops of `AccountState::apply_changes`.
unfoldable pub set_accounts : HashMap Address Account → AccountState → AccountState
set_accounts [] s = s
set_accounts ((a, account) ∷ m) s = set_accounts m (set_account s account)

unfoldable pub remove_accounts : List Address → AccountState → AccountState
remove_accounts [] s = s
remove_accounts (a ∷ rest) s = remove_accounts rest (record {
  accounts = erase a s.accounts;
  contract_code = erase a s.contract_code;
  contract_storage = erase a s.contract_storage;
})

unfoldable pub set_codes :
    (List ℕ → Hash256) → List (Address × List ℕ) → AccountState → AccountState
set_codes sha3 [] s = s
set_codes sha3 ((a, code) ∷ cs) s = set_codes sha3 cs (set_code sha3 s a code)

abbrev pub set_slots : Address → HashMap Hash256 Hash256 → AccountState → AccountState
set_slots a [] s = s
set_slots a ((key, value) ∷ m) s = set_slots a m (set_storage s a key value)

unfoldable pub set_storages :
    HashMap Address (HashMap Hash256 Hash256) → AccountState → AccountState
set_storages [] s = s
set_storages ((a, slots) ∷ m) s = set_storages m (set_slots a slots s)

unfoldable pub apply_changes : (List ℕ → Hash256) → AccountState → StateChanges → AccountState
unfolding set_accounts remove_accounts set_codes set_storages
apply_changes sha3 s c = set_storages c.storage_changes (
    set_codes sha3 c.created_contracts
      (remove_accounts c.deleted_accounts (set_accounts c.modified_accounts s)))
