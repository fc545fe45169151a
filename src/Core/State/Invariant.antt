-- ===== src/Core/State/Invariant.antt =====
-- What every reachable account state satisfies, and the effect of writing one account.
-- The code is crates/frychain-core/src/state.rs.
use fry_chain.Words.{u128_mod}
use fry_chain.HashMap.{lookup, IsMap}
use fry_chain.HashMap.Laws.{lookup-insert, lookup-erase, erase-IsMap, insert-IsMap}
use fry_chain.HashMap.Total.{total, total-erase-some, total-erase-none}
use fry_chain.HashMap.Entries.{AllEntries, AllEntries-lookup, AllEntries-erase, AllEntries-insert}
use fry_chain.Core.Address.{Address, address_eq}
use fry_chain.Core.State.{
  Account, AccountState, get_account, set_account, get_balance, is_empty, with_balance,
}
use fry_chain.Prelude.{
  ℕ, ◌+◌, ◌<◌, ◌≡◌, refl, inl, inr, true, false, arith, if◌then◌else◌, Bool-cases, Option-cases,
  same,
}

-- An account stands under its own address, is not empty, and its balance is a `u128`.
pub record IsStored (k : Address) (a : Account) : Type 0 where
  pub own_key : a.address ≡ k
  pub kept : is_empty a ≡ false
  pub fits : a.balance < u128_mod

pub record IsValid (s : AccountState) : Type 0 where
  pub distinct : IsMap s.accounts
  pub stored : AllEntries IsStored s.accounts

-- All tokens that accounts hold.
abbrev pub supply : AccountState → ℕ
supply s = total (λ (a : Account). a.balance) s.accounts

pub get_account_address :
    (s : AccountState) (k : Address) → IsValid s → (get_account s k).address ≡ k
unfolding get_account with_balance
get_account_address s k v = elim (Option-cases (lookup k s.accounts)) [
  | inl absent ↦ ground arith
  | inr (a, e) ↦ ground (arith, (AllEntries-lookup IsStored k s.accounts v.stored e).own_key)
]

pub get_balance_fits : (s : AccountState) (k : Address) → IsValid s → get_balance s k < u128_mod
unfolding get_balance with_balance
get_balance_fits s k v = elim (Option-cases (lookup k s.accounts)) [
  | inl absent ↦ ground arith
  | inr (a, e) ↦ ground (arith, (AllEntries-lookup IsStored k s.accounts v.stored e).fits)
]

-- An empty account holds nothing.
empty_balance : (a : Account) → is_empty a ≡ true → a.balance ≡ 0
unfolding is_empty
empty_balance a h = ground arith

-- A write of an account whose balance is a `u128` leaves a well-formed state well formed.
pub set_account-IsValid :
    (s : AccountState) (a : Account) → IsValid s → a.balance < u128_mod → IsValid (set_account s a)
unfolding set_account
set_account-IsValid s a v fits = elim (Bool-cases (is_empty a)) [
  | inl gone ↦ rw gone (record {
    distinct = erase-IsMap a.address s.accounts v.distinct;
    stored = AllEntries-erase IsStored a.address s.accounts v.stored;
  })
  | inr kept ↦ rw kept (record {
    distinct = insert-IsMap a.address a s.accounts v.distinct;
    stored =
        AllEntries-insert IsStored a.address a s.accounts
          (record { own_key = refl; kept = kept; fits = fits }) v.stored;
  })
]

-- After a write the account has the balance written, and every other account the one it had.
pub get_balance-set_account :
    (s : AccountState) (a : Account) (k : Address)
    → get_balance (set_account s a) k ≡ (if same a.address k then a.balance else get_balance s k)
unfolding get_balance set_account with_balance
get_balance-set_account s a k = ground (
  arith,
  lookup-insert a.address k a s.accounts,
  lookup-erase a.address k s.accounts,
  empty_balance a,
)

-- In a well-formed state, a write changes the supply by the difference that it makes to the
-- balance.
pub supply-set_account :
    (s : AccountState) (a : Account)
    → IsValid s
    → supply (set_account s a) + get_balance s a.address ≡ supply s + a.balance
unfolding get_balance set_account with_balance
supply-set_account s a v = elim (Option-cases (lookup a.address s.accounts)) [
  | inl absent ↦ ground (
    arith,
    total-erase-none (λ (b : Account). b.balance) a.address s.accounts absent,
    empty_balance a,
  )
  | inr (b, e) ↦ ground (
    arith,
    total-erase-some (λ (b : Account). b.balance) a.address b s.accounts v.distinct e,
    empty_balance a,
  )
]
