-- ===== src/Core/State.antt =====
-- crates/frychain-core/src/state.rs: accounts and the in-memory account state. SHA3-256, which
-- hashes contract code, is the argument `sha3`.
pub mod Invariant
pub mod Storage
pub mod Transfer
use fry_chain.HashMap.{HashMap, lookup, lookup_or, insert, erase, alter}
use fry_chain.Core.Hash.{Hash256, zero_hash, is_zero}
use fry_chain.Core.Amount.{TokenAmount, Nonce, add_tokens, sub_tokens, increment}
use fry_chain.Core.Address.{Address, address_eq}
use fry_chain.Prelude.{
  ℕ, Bool, true, false, not, ◌&&◌, Option, none, some, List, [], ◌==◌, if◌then◌else◌, same, nat_eq,
  list_eq, string_eq,
}

pub record Account : Type 0 where
  pub address : Address
  pub balance : TokenAmount
  pub nonce : Nonce
  pub code_hash : Hash256
  pub storage_root : Hash256
  pub staked : TokenAmount
  pub device_metadata_hash : Option Hash256

-- `Account::new`, `Account::with_balance`
unfoldable pub with_balance : Address → TokenAmount → Account
with_balance a b = record {
  address = a;
  balance = b;
  nonce = 0;
  code_hash = zero_hash;
  storage_root = zero_hash;
  staked = 0;
  device_metadata_hash = none;
}

unfoldable pub new_account : Address → Account
unfolding with_balance
new_account a = with_balance a 0

unfoldable pub is_contract : Account → Bool
is_contract a = not (is_zero a.code_hash)

abbrev is_none : Option Hash256 → Bool
is_none none = true
is_none (some _) = false

unfoldable pub is_empty : Account → Bool
is_empty a =
    a.balance == 0
    && a.nonce == 0
    && is_zero a.code_hash
    && a.staked == 0
    && is_none a.device_metadata_hash

-- The `&'static str` errors of the module.
pub data StateError : Type 0 where
  balance_overflow insufficient_balance : StateError

pub data Result {ℓ} (A : Type ℓ) : Type ℓ where
  ok : A → Result A
  err : StateError → Result A

infixl 5 ◌>>=◌
abbrev pub ◌>>=◌ {ℓ κ} : {A : Type ℓ} {B : Type κ} → Result A → (A → Result B) → Result B
ok a >>= f = f a
err e >>= f = err e

abbrev pub ok_or {ℓ} : {A : Type ℓ} → Option A → StateError → Result A
ok_or none e = err e
ok_or (some a) e = ok a

unfoldable pub add_balance : Account → TokenAmount → Result Account
unfolding add_tokens
add_balance a amount = do
  b ← ok_or (add_tokens a.balance amount) balance_overflow
  ok (record a { balance = b })

unfoldable pub sub_balance : Account → TokenAmount → Result Account
unfolding sub_tokens
sub_balance a amount = do
  b ← ok_or (sub_tokens a.balance amount) insufficient_balance
  ok (record a { balance = b })

unfoldable pub increment_nonce : Account → Account
unfolding increment
increment_nonce a = record a { nonce = increment a.nonce }

pub record AccountState : Type 0 where
  pub accounts : HashMap Address Account
  pub contract_code : HashMap Address (List ℕ)
  pub contract_storage : HashMap Address (HashMap Hash256 Hash256)

abbrev pub new_state : AccountState
new_state = record { accounts = []; contract_code = []; contract_storage = [] }

unfoldable pub get_account : AccountState → Address → Account
unfolding new_account
get_account s a = lookup_or (new_account a) a s.accounts

unfoldable pub set_account : AccountState → Account → AccountState
unfolding is_empty
set_account s a =
    if is_empty a
    then record s { accounts = erase a.address s.accounts }
    else record s { accounts = insert a.address a s.accounts }

unfoldable pub get_balance : AccountState → Address → TokenAmount
unfolding get_account
get_balance s a = (get_account s a).balance

unfoldable pub get_nonce : AccountState → Address → Nonce
unfolding get_account
get_nonce s a = (get_account s a).nonce

-- The `Err` cases return before `self` is changed.
unfoldable pub transfer : AccountState → Address → Address → TokenAmount → Result AccountState
unfolding get_account set_account add_balance sub_balance
transfer s sender receiver amount = if same sender receiver then ok s else do
  from_account ← sub_balance (get_account s sender) amount
  to_account ← add_balance (get_account s receiver) amount
  ok (set_account (set_account s from_account) to_account)

unfoldable pub set_code : (List ℕ → Hash256) → AccountState → Address → List ℕ → AccountState
unfolding get_account set_account
set_code sha3 s a code =
    let account = record (get_account s a) { code_hash = sha3 code } in
    let s' = set_account s account in record s' { contract_code = insert a code s'.contract_code }

unfoldable pub get_code : AccountState → Address → Option (List ℕ)
get_code s a = lookup a s.contract_code

unfoldable pub set_storage : AccountState → Address → Hash256 → Hash256 → AccountState
set_storage s a key value = record s {
  contract_storage = alter [] (insert key value) a s.contract_storage;
}

unfoldable pub get_storage : AccountState → Address → Hash256 → Hash256
get_storage s a key = lookup_or zero_hash key (lookup_or [] a s.contract_storage)
