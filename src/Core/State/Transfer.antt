-- ===== src/Core/State/Transfer.antt =====
-- Transfers: what moves, what is refused, and that no token is made or lost.
-- The code is crates/frychain-core/src/state.rs.
use fry_chain.Words.{u128_mod}
use fry_chain.Core.Amount.{TokenAmount}
use fry_chain.Core.Address.{Address, address_eq, address_beq_iff}
use fry_chain.Core.State.{
  AccountState, ok, err, insufficient_balance, balance_overflow, get_account, set_account,
  get_balance, transfer,
}
use fry_chain.Prelude.{
  ◌+◌, ◌-◌, ◌≡◌, arith, ltb, if◌then◌else◌, same, ◌≤◌, ◌<◌, refl, ◌≢◌, sym, ap, ◌∙◌, subst, inl,
  inr, Bool-cases,
}
use fry_chain.Core.State.Invariant.{
  IsValid, set_account-IsValid, get_balance-set_account, supply, get_balance_fits,
  get_account_address, supply-set_account,
}

-- The state after a transfer that is not refused.
abbrev pub moved : AccountState → Address → Address → TokenAmount → AccountState
moved s x y n =
    let from_account = record (get_account s x) { balance = get_balance s x - n } in
    let to_account = record (get_account s y) { balance = get_balance s y + n } in
    set_account (set_account s from_account) to_account

-- A transfer to the sender itself is accepted whatever the amount, and does nothing. Any other is
-- refused as uncovered when the sender has less than the amount; else refused as an overflow when
-- the receiver's balance would leave the range of `u128`; else accepted.
pub transfer_lem :
    (s : AccountState) (x y : Address) (n : TokenAmount)
    → transfer s x y n ≡ (
        if same x y
        then ok s
        else if ltb (get_balance s x) n
        then err insufficient_balance
        else if ltb (get_balance s y + n) u128_mod
        then ok (moved s x y n)
        else err balance_overflow)
unfolding transfer get_balance
transfer_lem s x y n = ground arith

-- The two writes of an accepted transfer, one after the other.
module _ (s : AccountState) (x y : Address) (n : TokenAmount) (v : IsValid s) where
  abbrev debited : AccountState
  debited = set_account s (record (get_account s x) { balance = get_balance s x - n })

  debited-IsValid : IsValid debited
  debited-IsValid =
      set_account-IsValid s (record (get_account s x) { balance = get_balance s x - n }) v
        (omega (arith, get_balance_fits s x v))

  moved-IsValid : get_balance s y + n < u128_mod → IsValid (moved s x y n)
  moved-IsValid fits =
      set_account-IsValid debited (record (get_account s y) { balance = get_balance s y + n })
        debited-IsValid fits

  -- Every balance after the transfer.
  balance_moved :
      (k : Address)
      → get_balance (moved s x y n) k ≡ (
          if same y k
          then get_balance s y + n
          else if same x k
          then get_balance s x - n
          else get_balance s k)
  balance_moved k =
      rw
        (
          get_balance-set_account,
          get_balance-set_account,
          get_account_address s y v,
          get_account_address s x v,
        )
        refl

  -- The debited account is another than the receiver's, which keeps its balance.
  balance_debited : x ≢ y → get_balance debited y ≡ get_balance s y
  balance_debited ne =
      rw (get_balance-set_account, get_account_address s x v) (ground (arith, address_beq_iff x y))

  supply-moved : x ≢ y → n ≤ get_balance s x → supply (moved s x y n) ≡ supply s
  supply-moved ne covered =
      let from_account = record (get_account s x) { balance = get_balance s x - n } in
      let to_account = record (get_account s y) { balance = get_balance s y + n } in
      omega (
        arith,
        supply-set_account s from_account v,
        ap (λ k. get_balance s k) (get_account_address s x v),
        supply-set_account debited to_account debited-IsValid,
        ap (λ k. get_balance debited k) (get_account_address s y v),
        balance_debited ne,
      )

module _ (s : AccountState) (x y : Address) (n : TokenAmount) {s' : AccountState} where
  -- An accepted transfer between two accounts was covered and fitted.
  accepted :
      x ≢ y
      → transfer s x y n ≡ ok s'
      → (n ≤ get_balance s x) × (get_balance s y + n < u128_mod) × (s' ≡ moved s x y n)
  accepted ne h = ground (arith, transfer_lem s x y n, address_beq_iff x y)

  -- A transfer that is accepted in a well-formed state leaves the state well formed.
  pub transfer-IsValid : IsValid s → transfer s x y n ≡ ok s' → IsValid s'
  transfer-IsValid v h = elim (Bool-cases (same x y)) [
    | inl own ↦ let e : s ≡ s' = ground (arith, transfer_lem s x y n) in subst (λ t. IsValid t) e v
    | inr other ↦
        let a = accepted (ground (arith, address_beq_iff x y)) h in
        subst (λ t. IsValid t) (sym a.2) (moved-IsValid s x y n v a.1)
  ]

  -- A transfer that is accepted in a well-formed state neither makes nor loses a token.
  pub transfer_conserves : IsValid s → transfer s x y n ≡ ok s' → supply s' ≡ supply s
  transfer_conserves v h = elim (Bool-cases (same x y)) [
    | inl own ↦ let e : s ≡ s' = ground (arith, transfer_lem s x y n) in ap (λ t. supply t) (sym e)
    | inr other ↦
        let ne : x ≢ y = ground (arith, address_beq_iff x y) in
        let a = accepted ne h in ap (λ t. supply t) a.2 ∙ supply-moved s x y n v ne a.0
  ]

  -- A transfer between two accounts that is accepted in a well-formed state takes the amount, which
  -- was covered, from the sender, adds it to the receiver, and leaves every other balance as it
  -- was.
  pub transfer_balances :
      (k : Address)
      → IsValid s
      → x ≢ y
      → transfer s x y n ≡ ok s'
      → (n ≤ get_balance s x)
        × (get_balance s' k ≡ (
            if same x k
            then get_balance s x - n
            else if same y k
            then get_balance s y + n
            else get_balance s k))
  transfer_balances k v ne h =
      let a = accepted ne h in
      rw a.2 (
        ground (arith, a.0),
        ground (
          arith,
          a.0,
          balance_moved s x y n v k,
          address_beq_iff y k,
          address_beq_iff x k,
          address_beq_iff x y,
        ),
      )
