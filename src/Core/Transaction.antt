-- ===== src/Core/Transaction.antt =====
-- crates/frychain-core/src/transaction.rs: transactions, what is signed of them, and signatures.
-- SHA3-256 is the argument `sha3`.
pub mod Signing
pub mod Kinds
use fry_chain.Words.Bytes.{le_bytes}
use fry_chain.Prelude.{
  ℕ, ◌+◌, ◌%◌, ◌^◌, Bool, true, false, Option, none, some, List, [], ◌∷◌, ◌++◌, ◌==◌, if◌then◌else◌,
  length, joined, String,
}
use fry_chain.Core.Address.{Address, contract_address, zero_address}
use fry_chain.Core.Amount.{Gas, TokenAmount, Nonce, total_fee, GasPrice}
use fry_chain.Core.Hash.{Hash256}
use fry_chain.Words.{wrapping_add, u128_mod, u64_mod, wrapping_mul}

pub data TransactionType : Type 0 where
  plain_transfer contract_deploy contract_call : TransactionType
  device_register device_data device_deregister : TransactionType
  stake unstake : TransactionType

unfoldable pub type_id : TransactionType → ℕ
type_id plain_transfer = 0
type_id contract_deploy = 1
type_id contract_call = 2
type_id device_register = 3
type_id device_data = 4
type_id device_deregister = 5
type_id stake = 6
type_id unstake = 7

unfoldable pub from_type_id : ℕ → Option TransactionType
from_type_id id =
    if id == 0
    then some plain_transfer
    else if id == 1
    then some contract_deploy
    else if id == 2
    then some contract_call
    else if id == 3
    then some device_register
    else if id == 4
    then some device_data
    else if id == 5
    then some device_deregister
    else if id == 6
    then some stake
    else if id == 7
    then some unstake
    else none

pub record Transaction : Type 0 where
  pub tx_type : TransactionType
  pub sender : Address
  pub recipient : Address
  pub value : TokenAmount
  pub nonce : Nonce
  pub gas_limit : Gas
  pub gas_price : GasPrice
  pub payload : List ℕ
  pub chain_id : ℕ

-- `Gas::TRANSFER_MIN`, `Gas::PER_BYTE`, `Gas::CONTRACT_CREATE`
abbrev pub transfer_min : Gas
transfer_min = 21_000

abbrev pub per_byte : Gas
per_byte = 16

abbrev pub contract_create : Gas
contract_create = 32_000

-- `Transaction::transfer`
unfoldable pub new_transfer : Address → Address → TokenAmount → Nonce → GasPrice → ℕ → Transaction
new_transfer sender recipient value nonce gas_price chain_id = record {
  tx_type = plain_transfer;
  sender = sender;
  recipient = recipient;
  value = value;
  nonce = nonce;
  gas_limit = transfer_min;
  gas_price = gas_price;
  payload = [];
  chain_id = chain_id;
}

-- `Transaction::contract_deploy`
unfoldable pub new_deploy :
    Address → List ℕ → TokenAmount → Nonce → Gas → GasPrice → ℕ → Transaction
new_deploy sender bytecode value nonce gas_limit gas_price chain_id = record {
  tx_type = contract_deploy;
  sender = sender;
  recipient = zero_address;
  value = value;
  nonce = nonce;
  gas_limit = gas_limit;
  gas_price = gas_price;
  payload = bytecode;
  chain_id = chain_id;
}

-- `Transaction::contract_call`
unfoldable pub new_call :
    Address → Address → List ℕ → TokenAmount → Nonce → Gas → GasPrice → ℕ → Transaction
new_call sender callee call_data value nonce gas_limit gas_price chain_id = record {
  tx_type = contract_call;
  sender = sender;
  recipient = callee;
  value = value;
  nonce = nonce;
  gas_limit = gas_limit;
  gas_price = gas_price;
  payload = call_data;
  chain_id = chain_id;
}

-- The bytes that `Transaction::hash` feeds to the hash function. The type of an address is not
-- among them.
unfoldable pub signing_bytes : Transaction → List ℕ
unfolding type_id
signing_bytes t = joined (
    (type_id t.tx_type ∷ [])
    ∷ t.sender.bytes
    ∷ t.recipient.bytes
    ∷ le_bytes 16 t.value
    ∷ le_bytes 8 t.nonce
    ∷ le_bytes 8 t.gas_limit
    ∷ le_bytes 16 t.gas_price
    ∷ le_bytes 4 (length t.payload % 2 ^ 32)
    ∷ t.payload
    ∷ le_bytes 8 t.chain_id
    ∷ [])

unfoldable pub transaction_hash : (List ℕ → Hash256) → Transaction → Hash256
transaction_hash sha3 t = sha3 (signing_bytes t)

unfoldable pub max_fee : Transaction → TokenAmount
max_fee t = total_fee t.gas_price t.gas_limit

unfoldable pub total_cost : Transaction → TokenAmount
total_cost t = wrapping_add u128_mod t.value (max_fee t)

abbrev base_gas : TransactionType → Gas
base_gas plain_transfer = transfer_min
base_gas contract_deploy = contract_create + transfer_min
base_gas contract_call = transfer_min
base_gas device_register = 100_000
base_gas device_data = 50_000
base_gas device_deregister = 50_000
base_gas stake = 50_000
base_gas unstake = 50_000

unfoldable pub estimate_gas : Transaction → Gas
estimate_gas t =
    wrapping_add u64_mod (base_gas t.tx_type) (wrapping_mul u64_mod (length t.payload) per_byte)

unfoldable pub deployed_address : (List ℕ → List ℕ) → Transaction → Option Address
deployed_address sha3 t = elim t.tx_type [
  | contract_deploy ↦ some (contract_address sha3 t.sender t.nonce)
  | _ ↦ none
]

pub data SignatureType : Type 0 where
  dilithium sphincs_plus ed25519 : SignatureType

pub record Signature : Type 0 where
  pub sig_type : SignatureType
  pub sig_bytes : List ℕ
  pub public_key : List ℕ

unfoldable pub is_post_quantum : Signature → Bool
is_post_quantum s = elim s.sig_type [ dilithium ↦ true | sphincs_plus ↦ true | ed25519 ↦ false ]

pub record SignedTransaction : Type 0 where
  pub transaction : Transaction
  pub signature : Signature

-- `SignedTransaction::hash`
unfoldable pub signed_hash : (List ℕ → Hash256) → SignedTransaction → Hash256
signed_hash sha3 s = sha3 (transaction_hash sha3 s.transaction ++ s.signature.sig_bytes)

pub record Log : Type 0 where
  pub address : Address
  pub topics : List Hash256
  pub log_data : List ℕ

pub record TransactionReceipt : Type 0 where
  pub tx_hash : Hash256
  pub block_hash : Hash256
  pub block_height : ℕ
  pub tx_index : ℕ
  pub from_address : Address
  pub to_address : Address
  pub contract_address : Option Address
  pub gas_used : Gas
  pub success : Bool
  pub return_data : List ℕ
  pub error : Option String
  pub logs : List Log
