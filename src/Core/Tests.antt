-- ===== src/Core/Tests.antt =====
-- Concrete inputs at which the theorems about frychain-core are applied.
use fry_chain.Prelude.{
  ℕ, ◌+◌, ◌-◌, ◌%◌, ◌^◌, ◌≤◌, ◌<◌, ◌≡◌, refl, ◌≢◌, ◌↔◌, ◌⊎◌, true, none, List, [], ◌∷◌, ◌++◌, arith,
  ltb, if◌then◌else◌, done, length, replicate, length-replicate, same, nat_eq, list_eq, string_eq,
}
use fry_chain.Core.Address.{Address, standard, device, address_eq, address_beq_iff, contract}
use fry_chain.Core.Hash.{Hash256, meets_difficulty, zero_hash}
use fry_chain.Core.State.{
  Account, AccountState, new_state, transfer, get_balance, new_account, ok, with_balance, err,
  is_empty, insufficient_balance, balance_overflow,
}
use fry_chain.Core.Hash.Order.{be_value, meets_difficulty-iff-le, IsBytes}
use fry_chain.Core.State.Invariant.{IsValid, supply}
use fry_chain.Core.Changes.{
  StateChanges, new_changes, apply_changes, modify_account, delete_account,
}
use fry_chain.HashMap.{lookup}
use fry_chain.Core.Config.{mainnet, testnet}
use fry_chain.Core.Config.Emission.{issued, issued-le-max_supply}
use fry_chain.Core.Merkle.{MerkleTree, MerkleProof, verify, from_hashes}
use fry_chain.Core.Merkle.Binding.{Collision, verify_binds}
use fry_chain.Core.Difficulty.{to_target, initial}
use fry_chain.Core.State.Transfer.{
  transfer-IsValid, transfer_conserves, transfer_balances, transfer_lem, moved,
}
use fry_chain.Core.Difficulty.Target.{to_target_inverted}
use fry_chain.Core.Changes.Apply.{modify_op, modify-after-delete_lost}
use fry_chain.Words.{u128_mod}
use fry_chain.Core.Merkle.Complete.{Proves, get_proof-verify}
use fry_chain.Core.Transaction.{
  Transaction, from_type_id, SignedTransaction, plain_transfer, type_id, transaction_hash,
  dilithium, stake,
}
use fry_chain.Core.Transaction.Signing.{signing_bytes_injective, hash_ignores_address_type}
use fry_chain.Core.Block.{
  Block, genesis, finalize, verify_structure, max_block_size, max_txs_per_block,
}
use fry_chain.Core.Block.Structure.{verify_structure-finalize}

abbrev alice : Address
alice = record { addr_type = standard; bytes = replicate 32 1 }

abbrev bob : Address
bob = record { addr_type = device; bytes = replicate 32 2 }

-- A stand-in of the right width for SHA3-256.
abbrev toy_hash : List ℕ → Hash256
toy_hash x = replicate 32 (length x % 256)

toy_hash_width : (x : List ℕ) → length (toy_hash x) ≡ 32
toy_hash_width x = length-replicate 32 (length x % 256)

abbrev low_hash : Hash256
low_hash = replicate 31 0 ++ 5 ∷ []

abbrev high_hash : Hash256
high_hash = replicate 32 7

abbrev rich_account : Account
rich_account = record (new_account alice) { balance = 100 }

abbrev two_accounts : AccountState
two_accounts = record new_state {
  accounts = (alice, rich_account) ∷ (bob, record (new_account bob) { balance = 30 }) ∷ [];
}

two_accounts-IsValid : IsValid two_accounts
unfolding new_account with_balance is_empty
two_accounts-IsValid = ground arith

low_hash-IsBytes : IsBytes low_hash
low_hash-IsBytes = ground arith

high_hash-IsBytes : IsBytes high_hash
high_hash-IsBytes = ground arith

meets_difficulty-iff-le_example :
    (meets_difficulty low_hash high_hash ≡ true) ↔ (be_value low_hash ≤ be_value high_hash)
meets_difficulty-iff-le_example =
    meets_difficulty-iff-le low_hash high_hash low_hash-IsBytes high_hash-IsBytes refl

to_target_inverted_example :
    (be_value (to_target 1000) < be_value (to_target (2 ^ 100)))
    × (meets_difficulty low_hash (to_target 1000) ≡ true
        → meets_difficulty low_hash (to_target (2 ^ 100)) ≡ true)
to_target_inverted_example =
    to_target_inverted 1000 (2 ^ 100) low_hash (omega arith) (omega arith) low_hash-IsBytes refl

transfer_lem_example : transfer two_accounts alice bob 40 ≡ (
    if same alice bob
    then ok two_accounts
    else if ltb (get_balance two_accounts alice) 40
    then err insufficient_balance
    else if ltb (get_balance two_accounts bob + 40) u128_mod
    then ok (moved two_accounts alice bob 40)
    else err balance_overflow)
transfer_lem_example = transfer_lem two_accounts alice bob 40

abbrev after_transfer : AccountState
after_transfer = moved two_accounts alice bob 40

transferred : transfer two_accounts alice bob 40 ≡ ok after_transfer
unfolding get_balance new_account with_balance
transferred = transfer_lem two_accounts alice bob 40

apart : alice ≢ bob
apart = ground (arith, address_beq_iff alice bob)

transfer-IsValid_example : IsValid after_transfer
transfer-IsValid_example =
    transfer-IsValid two_accounts alice bob 40 two_accounts-IsValid transferred

transfer_conserves_example : supply after_transfer ≡ supply two_accounts
transfer_conserves_example =
    transfer_conserves two_accounts alice bob 40 two_accounts-IsValid transferred

transfer_balances_example :
    (40 ≤ get_balance two_accounts alice)
    × (get_balance after_transfer bob ≡ (
        if same alice bob
        then get_balance two_accounts alice - 40
        else if same bob bob
        then get_balance two_accounts bob + 40
        else get_balance two_accounts bob))
transfer_balances_example =
    transfer_balances two_accounts alice bob 40 bob two_accounts-IsValid apart transferred

abbrev deletes_bob : StateChanges
deletes_bob = record new_changes { deleted_accounts = bob ∷ [] }

modify-after-delete_lost_example :
    lookup alice
      (apply_changes toy_hash two_accounts
        (modify_account (delete_account new_changes alice) rich_account)).accounts
    ≡ none
modify-after-delete_lost_example =
    modify-after-delete_lost toy_hash two_accounts new_changes alice (modify_op rich_account ∷ [])
      refl

issued-le-max_supply_example :
    (issued mainnet 9 ≤ mainnet.max_supply) × (issued testnet 9 ≤ testnet.max_supply)
issued-le-max_supply_example = issued-le-max_supply 9

get_proof-verify_example :
    (t : MerkleTree) × (from_hashes toy_hash (low_hash ∷ high_hash ∷ zero_hash ∷ []) ≡ done t)
    × (p : MerkleProof) × Proves toy_hash t (low_hash ∷ high_hash ∷ zero_hash ∷ []) 2 p
get_proof-verify_example =
    get_proof-verify toy_hash low_hash (high_hash ∷ zero_hash ∷ []) 2 (omega arith)

-- A proof with one sibling, for the left of two leaves.
abbrev left_proof : MerkleProof
left_proof = record {
  leaf_index = 0;
  leaf_hash = low_hash;
  proof_hashes = high_hash ∷ [];
  root = toy_hash (low_hash ++ high_hash);
}

left_proof_verifies : verify toy_hash left_proof ≡ true
unfolding verify
left_proof_verifies = refl

verify_binds_example : (left_proof.leaf_hash ≡ left_proof.leaf_hash) ⊎ Collision toy_hash
verify_binds_example =
    verify_binds toy_hash toy_hash_width left_proof left_proof left_proof_verifies
      left_proof_verifies refl refl refl (refl, (refl, tt)) (refl, (refl, tt))

abbrev payment : Transaction
payment = record {
  tx_type = plain_transfer;
  sender = alice;
  recipient = bob;
  value = 40;
  nonce = 1;
  gas_limit = 21_000;
  gas_price = 1_000_000_000;
  payload = 1 ∷ 2 ∷ [];
  chain_id = 1;
}

payment-IsValid : fry_chain.Core.Transaction.Signing.IsValid payment
payment-IsValid = ground arith

signing_bytes_injective_example :
    (payment.tx_type ≡ payment.tx_type)
    × (payment.sender.bytes ≡ payment.sender.bytes)
    × (payment.recipient.bytes ≡ payment.recipient.bytes)
    × (payment.value ≡ payment.value)
    × (payment.nonce ≡ payment.nonce)
    × (payment.gas_limit ≡ payment.gas_limit)
    × (payment.gas_price ≡ payment.gas_price)
    × (payment.payload ≡ payment.payload)
    × (payment.chain_id ≡ payment.chain_id)
signing_bytes_injective_example =
    signing_bytes_injective payment payment payment-IsValid payment-IsValid refl

hash_ignores_address_type_example :
    let other = record payment { recipient = record payment.recipient { addr_type = contract } } in
    (other.recipient ≢ payment.recipient)
    × (transaction_hash toy_hash other ≡ transaction_hash toy_hash payment)
hash_ignores_address_type_example =
    hash_ignores_address_type toy_hash payment contract (ground arith)

abbrev signed_payment : SignedTransaction
signed_payment = record {
  transaction = payment;
  signature = record { sig_type = dilithium; sig_bytes = 9 ∷ []; public_key = 8 ∷ [] };
}

abbrev one_payment : Block
one_payment = record (genesis [] alice initial) {
  body = record { transactions = signed_payment ∷ [] };
}

verify_structure-finalize_example :
    (b' : Block) × (finalize toy_hash one_payment ≡ done b')
    × (b'.body ≡ one_payment.body)
    × ((verify_structure toy_hash (λ _. 100) b' ≡ done none)
        ↔ (100 ≤ max_block_size)
          × (length one_payment.body.transactions ≤ max_txs_per_block)
          × (length one_payment.header.extra_data ≤ 32))
verify_structure-finalize_example = verify_structure-finalize toy_hash (λ _. 100) one_payment
