-- ===== src/Depin/M2m/Tests.antt =====
-- Concrete inputs at which the theorems about transactions between devices are applied. The bytes of a
-- string are stood in for by 20 bytes that do not depend on it.
use fry_chain.Core.Address.{device}
use fry_chain.Core.Hash.{Hash256}
use fry_chain.Depin.Did.{DeviceDid}
use fry_chain.Depin.M2m.{
  hashed_bytes, type_byte, M2mTransaction, new_protocol, new_m2m, task_assignment, heartbeat,
  submit, process_pending, get_transaction, m2m_hash,
}
use fry_chain.Depin.M2m.Delivery.{
  M2mOp, submit_op, process_op, submitted, m2m_run, m2m_delivers, get_transaction-submit, IsOnly,
}
use fry_chain.Depin.M2m.Hashing.{hash_ignores_target}
use fry_chain.Words.{u64_mod}
use fry_chain.Prelude.{
  ℕ, ◌<◌, String, ◌≡◌, refl, none, some, List, [], ◌∷◌, ◌++◌, arith, take, replicate, All,
  All-replicate,
}

abbrev text_bytes : String → List ℕ
text_bytes name = replicate 20 100

abbrev first_bytes : List ℕ → Hash256
first_bytes bytes = take 32 (bytes ++ replicate 32 0)

abbrev sensor : DeviceDid
sensor = record {
  did = "did:fry:sensor";
  address = record { addr_type = device; bytes = replicate 32 5 };
}

abbrev gateway : DeviceDid
gateway = record {
  did = "did:fry:gateway";
  address = record { addr_type = device; bytes = replicate 32 6 };
}

abbrev beat : M2mTransaction
beat = new_m2m 90 heartbeat sensor none 1 [] 0

abbrev task : M2mTransaction
task = new_m2m 100 task_assignment gateway (some sensor) 2 (7 ∷ []) 50

abbrev calls : List M2mOp
calls = submit_op beat ∷ process_op ∷ submit_op task ∷ []

m2m_delivers_example :
    (let (p, out) = m2m_run text_bytes first_bytes calls new_protocol in
      (out ++ p.pending ≡ submitted calls)
      × (p.completed ≡ out)
      × ((process_pending p).0.completed ≡ submitted calls)
      × ((process_pending p).0.pending ≡ []))
m2m_delivers_example = m2m_delivers text_bytes first_bytes calls

-- The other transaction has another hash: the types differ.
task-IsOnly :
    All (IsOnly text_bytes first_bytes beat) (submitted (submit_op task ∷ process_op ∷ []))
unfolding m2m_hash hashed_bytes type_byte new_m2m
task-IsOnly = ((λ h. absurd (differ h)), tt)
  where
    differ : m2m_hash text_bytes first_bytes task ≡ m2m_hash text_bytes first_bytes beat → ⊥
    differ h = cc

get_transaction-submit_example :
    get_transaction text_bytes first_bytes
      (m2m_run text_bytes first_bytes
        (submit_op task ∷ process_op ∷ [])
        (submit text_bytes first_bytes new_protocol beat).0).0
      (submit text_bytes first_bytes new_protocol beat).1
    ≡ some beat
get_transaction-submit_example =
    get_transaction-submit text_bytes first_bytes new_protocol beat
      (submit_op task ∷ process_op ∷ []) tt tt task-IsOnly

text_bytes-All : All (λ b. b < 256) (text_bytes sensor.did)
text_bytes-All = All-replicate (λ b. b < 256) 20 100 (omega arith)

hash_ignores_target_example :
    (broadcast : M2mTransaction) × (broadcast.to_device ≡ none)
    × (broadcast.from_device ≡ task.from_device)
    × (broadcast.signature ≡ task.signature)
    × (broadcast.nonce < u64_mod)
    × (broadcast.timestamp < u64_mod)
    × (m2m_hash text_bytes first_bytes broadcast ≡ m2m_hash text_bytes first_bytes task)
unfolding new_m2m
hash_ignores_target_example =
    hash_ignores_target text_bytes first_bytes task sensor refl (omega arith) text_bytes-All
