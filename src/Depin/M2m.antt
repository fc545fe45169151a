-- ===== src/Depin/M2m.antt =====
-- crates/frychain-depin/src/m2m.rs: transactions between devices, and the handler that keeps them. The
-- clock, SHA3-256, the UTF-8 bytes of a string and the JSON forms are arguments.
pub mod Delivery
pub mod Hashing
mod Tests
use fry_chain.Prelude.{
  ℕ, String, Bool, Option, none, some, List, [], ◌∷◌, ◌++◌, if◌then◌else◌, length, joined, same,
  nat_eq, list_eq, string_eq,
}
use fry_chain.Depin.Did.{DeviceDid}
use fry_chain.Core.Amount.{TokenAmount}
use fry_chain.Core.Hash.{Hash256}
use fry_chain.Words.Bytes.{le_bytes}
use fry_chain.Core.Address.{address_eq}

-- `M2MTransactionType`
pub data M2mTransactionType : Type 0 where
  data_submission service_request service_response heartbeat : M2mTransactionType
  task_assignment task_completion reward : M2mTransactionType

-- `M2MTransaction`
pub record M2mTransaction : Type 0 where
  pub tx_type : M2mTransactionType
  pub from_device : DeviceDid
  pub to_device : Option DeviceDid
  pub nonce : ℕ
  pub timestamp : ℕ
  pub payload : List ℕ
  pub value : TokenAmount
  pub signature : List ℕ

pub record DeviceHeartbeat : Type 0 where
  pub status : String
  pub cpu_usage : ℕ
  pub memory_usage : ℕ
  pub disk_usage : ℕ
  pub network_latency : ℕ
  pub active_tasks : ℕ
  pub custom_metrics : List (String × String)

-- `J` is the type `serde_json::Value`.
pub record TaskAssignment (J : Type 0) : Type 0 where
  pub task_id : String
  pub task_type : String
  pub parameters : J
  pub deadline : ℕ
  pub reward : TokenAmount
  pub requires_attestation : Bool

pub record TaskResult (J : Type 0) : Type 0 where
  pub task_id : String
  pub success : Bool
  pub result : J
  pub completed_at : ℕ
  pub attestation : Option (List ℕ)
  pub error : Option String

-- `M2MTransaction::new`
unfoldable pub new_m2m :
    ℕ
    → M2mTransactionType
    → DeviceDid
    → Option DeviceDid
    → ℕ
    → List ℕ
    → TokenAmount
    → M2mTransaction
new_m2m now tx_type from_device to_device nonce payload value = record {
  tx_type = tx_type;
  from_device = from_device;
  to_device = to_device;
  nonce = nonce;
  timestamp = now;
  payload = payload;
  value = value;
  signature = [];
}

-- `M2MTransaction::data_submission`
unfoldable pub new_data_submission : ℕ → DeviceDid → List ℕ → ℕ → M2mTransaction
unfolding new_m2m
new_data_submission now from_device bytes nonce =
    new_m2m now data_submission from_device none nonce bytes 0

-- `serde_json::to_vec(..).unwrap_or_default()`, where `none` is the error.
abbrev or_default : Option (List ℕ) → List ℕ
or_default none = []
or_default (some bytes) = bytes

-- `M2MTransaction::heartbeat`
unfoldable pub new_heartbeat :
    (DeviceHeartbeat → Option (List ℕ)) → ℕ → DeviceDid → DeviceHeartbeat → ℕ → M2mTransaction
unfolding new_m2m
new_heartbeat to_json now from_device status nonce =
    new_m2m now heartbeat from_device none nonce (or_default (to_json status)) 0

-- `M2MTransaction::task_assignment`
unfoldable pub new_task_assignment :
    {J : Type 0}
    → (TaskAssignment J → Option (List ℕ))
    → ℕ
    → DeviceDid
    → DeviceDid
    → TaskAssignment J
    → TokenAmount
    → ℕ
    → M2mTransaction
unfolding new_m2m
new_task_assignment to_json now from_device to_device task offered nonce =
    new_m2m now task_assignment from_device (some to_device) nonce (or_default (to_json task))
      offered

-- `M2MTransaction::task_completion`
unfoldable pub new_task_completion :
    {J : Type 0}
    → (TaskResult J → Option (List ℕ))
    → ℕ
    → DeviceDid
    → DeviceDid
    → TaskResult J
    → ℕ
    → M2mTransaction
unfolding new_m2m
new_task_completion to_json now from_device to_device outcome nonce =
    new_m2m now task_completion from_device (some to_device) nonce (or_default (to_json outcome)) 0

-- `self.tx_type.clone() as u8`
unfoldable pub type_byte : M2mTransactionType → ℕ
type_byte data_submission = 0
type_byte service_request = 1
type_byte service_response = 2
type_byte heartbeat = 3
type_byte task_assignment = 4
type_byte task_completion = 5
type_byte reward = 6

-- `M2MTransaction::sign`
unfoldable pub sign : M2mTransaction → List ℕ → M2mTransaction
sign tx signature = record tx { signature = signature }

-- `DeviceHeartbeat::new`
abbrev pub new_device_heartbeat : DeviceHeartbeat
new_device_heartbeat = record {
  status = "online";
  cpu_usage = 0;
  memory_usage = 0;
  disk_usage = 0;
  network_latency = 0;
  active_tasks = 0;
  custom_metrics = [];
}

-- `M2MProtocol`
pub record M2mProtocol : Type 0 where
  pub pending : List M2mTransaction
  pub completed : List M2mTransaction

abbrev pub new_protocol : M2mProtocol
new_protocol = record { pending = []; completed = [] }

unfoldable pub pending_count : M2mProtocol → ℕ
pending_count p = length p.pending

-- The protocol after the call, and the transactions that are handed out.
unfoldable pub process_pending : M2mProtocol → M2mProtocol × List M2mTransaction
process_pending p = (record { pending = []; completed = p.completed ++ p.pending }, p.pending)

module _ (utf8 : String → List ℕ) (sha3 : List ℕ → Hash256) where
  abbrev pub target_bytes : Option DeviceDid → List ℕ
  target_bytes none = []
  target_bytes (some to_device) = utf8 to_device.did

  -- What `M2MTransaction::hash` hashes.
  unfoldable pub hashed_bytes : M2mTransaction → List ℕ
  unfolding type_byte
  hashed_bytes tx = joined (
      (type_byte tx.tx_type ∷ [])
      ∷ utf8 tx.from_device.did
      ∷ target_bytes tx.to_device
      ∷ le_bytes 8 tx.nonce
      ∷ le_bytes 8 tx.timestamp
      ∷ tx.payload
      ∷ le_bytes 16 tx.value
      ∷ [])

  unfoldable pub m2m_hash : M2mTransaction → Hash256
  m2m_hash tx = sha3 (hashed_bytes tx)

  -- The protocol after the call, and the hash; the call has no errors.
  unfoldable pub submit : M2mProtocol → M2mTransaction → M2mProtocol × Hash256
  unfolding m2m_hash
  submit p tx = (record p { pending = p.pending ++ tx ∷ [] }, m2m_hash tx)

  -- `find(|tx| tx.hash() == *hash)`
  unfoldable pub find_hash : Hash256 → List M2mTransaction → Option M2mTransaction
  unfolding m2m_hash
  find_hash hash [] = none
  find_hash hash (tx ∷ txs) =
      let rest = find_hash hash txs in if same (m2m_hash tx) hash then some tx else rest

  unfoldable pub get_transaction : M2mProtocol → Hash256 → Option M2mTransaction
  unfolding find_hash
  get_transaction p hash = find_hash hash (p.pending ++ p.completed)
