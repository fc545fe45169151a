-- ===== src/Core/Changes/Apply.antt =====
-- What is left after changes are applied.
-- The code is crates/frychain-core/src/state.rs.
use fry_chain.HashMap.{lookup, HashMap}
use fry_chain.HashMap.Laws.{lookup-erase}
use fry_chain.Core.Address.{Address, address_eq}
use fry_chain.Core.State.{Account, AccountState, set_storage}
use fry_chain.Core.Changes.{
  StateChanges, modify_account, delete_account, set_accounts, remove_accounts, set_codes, set_slots,
  set_storages, apply_changes, change_storage,
}
use fry_chain.Prelude.{
  ℕ, ◌≡◌, refl, ◌∙◌, Bool, false, ◌||◌, List, [], ◌∷◌, same, inl, inr, true, none, ◌++◌, arith,
  Bool-cases, same_refl,
}
use fry_chain.Core.Hash.{Hash256}

abbrev pub listed : Address → List Address → Bool
listed k [] = false
listed k (a ∷ rest) = same a k || listed k rest

-- Storage writes leave the accounts alone.
set_slots-accounts :
    (a : Address) (m : HashMap Hash256 Hash256) (s : AccountState)
    → (set_slots a m s).accounts ≡ s.accounts
unfolding set_storage
set_slots-accounts a [] s = refl
set_slots-accounts a ((key, value) ∷ m) s = set_slots-accounts a m (set_storage s a key value)

set_storages-accounts :
    (m : HashMap Address (HashMap Hash256 Hash256)) (s : AccountState)
    → (set_storages m s).accounts ≡ s.accounts
unfolding set_storages
set_storages-accounts [] s = refl
set_storages-accounts ((a, slots) ∷ m) s =
    set_storages-accounts m (set_slots a slots s) ∙ set_slots-accounts a slots s

remove_accounts_absent :
    (k : Address) (l : List Address) (s : AccountState)
    → lookup k s.accounts ≡ none
    → lookup k (remove_accounts l s).accounts ≡ none
unfolding remove_accounts
remove_accounts_absent k [] s h = h
remove_accounts_absent k (a ∷ rest) s h =
    remove_accounts_absent k rest _ (ground (arith, lookup-erase a k s.accounts))

remove_accounts_removes :
    (k : Address) (l : List Address) (s : AccountState)
    → listed k l ≡ true
    → lookup k (remove_accounts l s).accounts ≡ none
unfolding remove_accounts
remove_accounts_removes k [] s h = cc
remove_accounts_removes k (a ∷ rest) s h = elim (Bool-cases (same a k)) [
  | inl t ↦ remove_accounts_absent k rest _ (ground (arith, lookup-erase a k s.accounts))
  | inr f ↦ remove_accounts_removes k rest _ (ground arith)
]

listed-append : (k a : Address) (l : List Address) → same a k ≡ true → listed k (l ++ a ∷ []) ≡ true
listed-append k a [] h = ground arith
listed-append k a (b ∷ l) h = ground (arith, listed-append k a l h)

-- Where the changes create no contract, an address that they delete has no account afterwards.
pub apply_changes_deletes :
    (sha3 : List ℕ → Hash256) (s : AccountState) (c : StateChanges) (k : Address)
    → c.created_contracts ≡ []
    → listed k c.deleted_accounts ≡ true
    → lookup k (apply_changes sha3 s c).accounts ≡ none
unfolding apply_changes
apply_changes_deletes sha3 s c k no_code gone =
    rw (set_storages-accounts, no_code, set_codes)
      (remove_accounts_removes k c.deleted_accounts (set_accounts c.modified_accounts s) gone)

-- A call that records a change and creates no contract.
pub data ChangeOp : Type 0 where
  modify_op : Account → ChangeOp
  delete_op : Address → ChangeOp
  storage_op : Address → Hash256 → Hash256 → ChangeOp

abbrev pub recorded : List ChangeOp → StateChanges → StateChanges
recorded [] c = c
recorded (modify_op a ∷ ops) c = recorded ops (modify_account c a)
recorded (delete_op a ∷ ops) c = recorded ops (delete_account c a)
recorded (storage_op a key value ∷ ops) c = recorded ops (change_storage c a key value)

listed_before :
    (k a : Address) (l : List Address) → listed k l ≡ true → listed k (l ++ a ∷ []) ≡ true
listed_before k a [] h = cc
listed_before k a (b ∷ l) h = ground (arith, listed_before k a l)

-- No call takes an address off the deleted ones.
stays_deleted :
    (ops : List ChangeOp) (c : StateChanges) (k : Address)
    → c.created_contracts ≡ []
    → listed k c.deleted_accounts ≡ true
    → ((recorded ops c).created_contracts ≡ [])
      × (listed k (recorded ops c).deleted_accounts ≡ true)
unfolding modify_account delete_account change_storage
stays_deleted [] c k none_created gone = (none_created, gone)
stays_deleted (modify_op a ∷ ops) c k none_created gone =
    stays_deleted ops (modify_account c a) k none_created gone
stays_deleted (delete_op a ∷ ops) c k none_created gone =
    stays_deleted ops (delete_account c a) k none_created
      (listed_before k a c.deleted_accounts gone)
stays_deleted (storage_op a key value ∷ ops) c k none_created gone =
    stays_deleted ops (change_storage c a key value) k none_created gone

-- Where the changes create no contract, an account that is deleted is gone once they are applied,
-- whatever modifications, deletions and storage writes are recorded after the deletion: a modification
-- of the deleted account itself is lost.
pub modify-after-delete_lost :
    (sha3 : List ℕ → Hash256) (s : AccountState) (c : StateChanges) (k : Address)
    (later : List ChangeOp)
    → c.created_contracts ≡ []
    → lookup k (apply_changes sha3 s (recorded later (delete_account c k))).accounts ≡ none
unfolding delete_account
modify-after-delete_lost sha3 s c k later no_code =
    let (no_code', gone) =
      stays_deleted later (delete_account c k) k no_code
        (listed-append k k c.deleted_accounts (same_refl k)) in
    apply_changes_deletes sha3 s (recorded later (delete_account c k)) k no_code' gone
