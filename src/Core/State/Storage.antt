-- ===== src/Core/State/Storage.antt =====
-- Contract code and contract storage: what is written is read back, and nothing else changes.
-- The code is crates/frychain-core/src/state.rs.
use fry_chain.HashMap.{lookup_or, insert}
use fry_chain.HashMap.Laws.{lookup-insert}
use fry_chain.Core.Address.{Address, address_eq, address_beq_iff}
use fry_chain.Core.Hash.{Hash256}
use fry_chain.Core.State.{
  AccountState, get_storage, set_storage, set_code, get_code, get_account, get_balance, set_account,
}
use fry_chain.Prelude.{
  ℕ, ◌≡◌, ◌&&◌, some, List, [], arith, if◌then◌else◌, same, nat_eq, list_eq, string_eq, refl, ap,
  true,
}
use fry_chain.Core.State.Invariant.{IsValid, get_balance-set_account, get_account_address}

-- A slot that was written reads back as written; every other slot of every contract is unchanged.
pub get_storage-set_storage :
    (s : AccountState) (a b : Address) (key slot value : Hash256)
    → get_storage (set_storage s a key value) b slot
      ≡ (if same a b && same key slot then value else get_storage s b slot)
unfolding get_storage set_storage
get_storage-set_storage s a b key slot value = ground (
  arith,
  address_beq_iff a b,
  lookup-insert a b (insert key value (lookup_or [] a s.contract_storage)) s.contract_storage,
  lookup-insert key slot value (lookup_or [] a s.contract_storage),
)

set_code_code :
    (sha3 : List ℕ → Hash256) (s : AccountState) (a b : Address) (code : List ℕ)
    → get_code (set_code sha3 s a code) b ≡ (if same a b then some code else get_code s b)
unfolding set_code get_code
set_code_code sha3 s a b code = ground (arith, lookup-insert a b code s.contract_code)

-- The code of a contract is no part of its balance.
set_code_balance :
    (sha3 : List ℕ → Hash256) (s : AccountState) (a b : Address) (code : List ℕ)
    → get_balance (set_code sha3 s a code) b
      ≡ get_balance (set_account s (record (get_account s a) { code_hash = sha3 code })) b
unfolding set_code get_balance
set_code_balance sha3 s a b code = refl

same_balance :
    (s : AccountState) (a b : Address)
    → same a b ≡ true
    → (get_account s a).balance ≡ get_balance s b
unfolding get_balance
same_balance s a b h = ap (λ k. (get_account s k).balance) ((address_beq_iff a b).0 h)

-- In a well-formed state, deploying code makes it the contract's code and leaves every other
-- contract's code alone; no balance changes.
pub set_code_lem :
    (sha3 : List ℕ → Hash256) (s : AccountState) (a b : Address) (code : List ℕ)
    → IsValid s
    → (get_code (set_code sha3 s a code) b ≡ (if same a b then some code else get_code s b))
      × (get_balance (set_code sha3 s a code) b ≡ get_balance s b)
set_code_lem sha3 s a b code v = (
  set_code_code sha3 s a b code,
  rw (set_code_balance, get_balance-set_account, get_account_address s a v)
      (ground (arith, same_balance s a b)),
)
