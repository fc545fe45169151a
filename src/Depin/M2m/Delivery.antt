-- ===== src/Depin/M2m/Delivery.antt =====
-- What is submitted is handed out once, in order, and stays known.
-- The code is crates/frychain-depin/src/m2m.rs.
use fry_chain.Depin.M2m.{
  M2mTransaction, M2mProtocol, new_protocol, submit, process_pending, m2m_hash, find_hash,
  get_transaction,
}
use fry_chain.Prelude.{
  ℕ, String, ◌≡◌, refl, sym, ap, ◌∙◌, List, [], ◌∷◌, ◌++◌, append-nil, append_assoc, subst, ◌⊎◌,
  inl, inr, Bool, true, false, some, Bool-cases, same, list_beq_iff, nat_eq, list_eq, string_eq,
  if◌then◌else◌, All, All-append,
}
use fry_chain.Core.Hash.{Hash256}
use fry_chain.Core.Address.{address_eq}

-- A call of the protocol that changes it.
pub data M2mOp : Type 0 where
  submit_op : M2mTransaction → M2mOp
  process_op : M2mOp

-- What the calls submit, in order.
abbrev pub submitted : List M2mOp → List M2mTransaction
submitted [] = []
submitted (submit_op tx ∷ ops) = tx ∷ submitted ops
submitted (process_op ∷ ops) = submitted ops

module _ (utf8 : String → List ℕ) (sha3 : List ℕ → Hash256) where
  -- The protocol after the calls, and all that they handed out, one after the other.
  abbrev pub m2m_run : List M2mOp → M2mProtocol → M2mProtocol × List M2mTransaction
  m2m_run [] p = (p, [])
  m2m_run (submit_op tx ∷ ops) p = m2m_run ops (submit utf8 sha3 p tx).0
  m2m_run (process_op ∷ ops) p =
      let (q, out) = m2m_run ops (process_pending p).0 in (q, (process_pending p).1 ++ out)

  run_lem :
      (ops : List M2mOp) (p : M2mProtocol)
      → ((m2m_run ops p).1 ++ (m2m_run ops p).0.pending ≡ p.pending ++ submitted ops)
        × ((m2m_run ops p).0.completed ≡ p.completed ++ (m2m_run ops p).1)
  unfolding submit process_pending
  run_lem [] p = (sym (append-nil p.pending), sym (append-nil p.completed))
  run_lem (submit_op tx ∷ ops) p =
      let (a, b) = run_lem ops (submit utf8 sha3 p tx).0 in
      (a ∙ append_assoc p.pending (tx ∷ []) (submitted ops), b)
  run_lem (process_op ∷ ops) p =
      let q = (process_pending p).0 in
      let (a, b) = run_lem ops q in
      (
        append_assoc p.pending (m2m_run ops q).1 (m2m_run ops q).0.pending
            ∙ ap (λ l. p.pending ++ l) a,
        b ∙ append_assoc p.completed p.pending (m2m_run ops q).1,
      )

  -- After any calls on a new protocol, what they handed out with what is pending is what was
  -- submitted, each transaction once and in order; what was handed out is what is completed; and one
  -- more call of process_pending hands out the rest: then all that was submitted is completed, and
  -- nothing is pending.
  pub m2m_delivers :
      (ops : List M2mOp)
      → (let (p, out) = m2m_run ops new_protocol in
          (out ++ p.pending ≡ submitted ops)
          × (p.completed ≡ out)
          × ((process_pending p).0.completed ≡ submitted ops)
          × ((process_pending p).0.pending ≡ []))
  unfolding process_pending
  m2m_delivers ops =
      let (a, b) = run_lem ops new_protocol in
      (a, b, ap (λ l. l ++ (m2m_run ops new_protocol).0.pending) b ∙ a, refl)

  -- A transaction of the list has the hash.
  abbrev HasHash : Hash256 → List M2mTransaction → Type 0
  HasHash hash [] = ⊥
  HasHash hash (tx ∷ txs) = (m2m_hash utf8 sha3 tx ≡ hash) ⊎ HasHash hash txs

  HasHash-left :
      (hash : Hash256) (a b : List M2mTransaction) → HasHash hash a → HasHash hash (a ++ b)
  HasHash-left hash [] b h = absurd h
  HasHash-left hash (tx ∷ a) b (inl h) = inl h
  HasHash-left hash (tx ∷ a) b (inr h) = inr (HasHash-left hash a b h)

  HasHash-right :
      (hash : Hash256) (a b : List M2mTransaction) → HasHash hash b → HasHash hash (a ++ b)
  HasHash-right hash [] b h = h
  HasHash-right hash (tx ∷ a) b h = inr (HasHash-right hash a b h)

  HasHash-swap :
      (hash : Hash256) (a b : List M2mTransaction) → HasHash hash (a ++ b) → HasHash hash (b ++ a)
  HasHash-swap hash [] b h = HasHash-left hash b [] h
  HasHash-swap hash (tx ∷ a) b (inl h) = HasHash-right hash b (tx ∷ a) (inl h)
  HasHash-swap hash (tx ∷ a) b (inr h) = HasHash-mid hash tx b a (HasHash-swap hash a b h)
    where
      HasHash-mid :
          (hash : Hash256) (tx : M2mTransaction) (b a : List M2mTransaction)
          → HasHash hash (b ++ a)
          → HasHash hash (b ++ tx ∷ a)
      HasHash-mid hash tx [] a h = inr h
      HasHash-mid hash tx (u ∷ b) a (inl h) = inl h
      HasHash-mid hash tx (u ∷ b) a (inr h) = inr (HasHash-mid hash tx b a h)

  HasHash-find :
      (hash : Hash256) (txs : List M2mTransaction)
      → HasHash hash txs
      → (tx : M2mTransaction) × (find_hash utf8 sha3 hash txs ≡ some tx)
        × (m2m_hash utf8 sha3 tx ≡ hash)
  unfolding find_hash
  HasHash-find hash [] h = absurd h
  HasHash-find hash (tx ∷ txs) h = elim (Bool-cases (same (m2m_hash utf8 sha3 tx) hash)) [
    | inl eq ↦ (tx, rw eq refl, (list_beq_iff (m2m_hash utf8 sha3 tx) hash).0 eq)
    | inr ne ↦ elim h [
      | inl first ↦ absurd (clash ((list_beq_iff (m2m_hash utf8 sha3 tx) hash).1 first) ne)
      | inr later ↦
          let (u, found, same_hash) = HasHash-find hash txs later in (u, rw ne found, same_hash)
    ]
  ]
    where
      clash : {c : Bool} → c ≡ true → c ≡ false → ⊥
      clash h k = cc

  run-HasHash :
      (hash : Hash256) (ops : List M2mOp) (p : M2mProtocol)
      → HasHash hash (p.pending ++ p.completed)
      → HasHash hash ((m2m_run ops p).0.pending ++ (m2m_run ops p).0.completed)
  unfolding submit process_pending
  run-HasHash hash [] p h = h
  run-HasHash hash (submit_op tx ∷ ops) p h =
      let back = HasHash-swap hash p.pending p.completed h in
      run-HasHash hash ops (submit utf8 sha3 p tx).0 (
        HasHash-swap hash p.completed (p.pending ++ tx ∷ []) (
          subst (HasHash hash) (append_assoc p.completed p.pending (tx ∷ []))
            (HasHash-left hash (p.completed ++ p.pending) (tx ∷ []) back)))
  run-HasHash hash (process_op ∷ ops) p h =
      run-HasHash hash ops (process_pending p).0 (HasHash-swap hash p.pending p.completed h)

  -- Some transaction with the hash of a submitted one is found after whatever calls follow.
  found_by_hash :
      (p : M2mProtocol) (tx : M2mTransaction) (later : List M2mOp)
      → (found : M2mTransaction) × (get_transaction utf8 sha3
            (m2m_run later (submit utf8 sha3 p tx).0).0
            (m2m_hash utf8 sha3 tx)
          ≡ some found)
        × (m2m_hash utf8 sha3 found ≡ m2m_hash utf8 sha3 tx)
  unfolding submit get_transaction
  found_by_hash p tx later =
      let hash = m2m_hash utf8 sha3 tx in
      HasHash-find hash _ (
        run-HasHash hash later (submit utf8 sha3 p tx).0 (
          HasHash-left hash (p.pending ++ tx ∷ []) p.completed
            (HasHash-right hash p.pending (tx ∷ []) (inl refl))))

  module _ (P : M2mTransaction → Type 0) where
    find_hash-All :
        (hash : Hash256) (txs : List M2mTransaction) (found : M2mTransaction)
        → All P txs
        → find_hash utf8 sha3 hash txs ≡ some found
        → P found
    unfolding find_hash
    find_hash-All hash [] found all e = cc
    find_hash-All hash (tx ∷ txs) found all e =
        elim (Bool-cases (same (m2m_hash utf8 sha3 tx) hash)) [
          | inl eq ↦
              let first : tx ≡ found =
                good_some tx found
                  (sym (ap (λ c. if c then some tx else find_hash utf8 sha3 hash txs) eq) ∙ e) in
              subst P first all.0
          | inr ne ↦
              find_hash-All hash txs found all.1
                (sym (ap (λ c. if c then some tx else find_hash utf8 sha3 hash txs) ne) ∙ e)
        ]
      where
        good_some : (a b : M2mTransaction) → some a ≡ some b → a ≡ b
        good_some a b e = cc

    run-All :
        (ops : List M2mOp) (p : M2mProtocol)
        → All P p.pending
        → All P p.completed
        → All P (submitted ops)
        → All P ((m2m_run ops p).0.pending ++ (m2m_run ops p).0.completed)
    unfolding submit process_pending
    run-All [] p waiting handled new = All-append P p.pending p.completed waiting handled
    run-All (submit_op tx ∷ ops) p waiting handled new =
        run-All ops (submit utf8 sha3 p tx).0 (All-append P p.pending (tx ∷ []) waiting (new.0, tt))
          handled new.1
    run-All (process_op ∷ ops) p waiting handled new =
        run-All ops (process_pending p).0 tt (All-append P p.completed p.pending handled waiting)
          new

  -- The transaction is the only one of its hash.
  abbrev pub IsOnly : M2mTransaction → M2mTransaction → Type 0
  IsOnly tx other = m2m_hash utf8 sha3 other ≡ m2m_hash utf8 sha3 tx → other ≡ tx

  -- A transaction that is submitted is found by the hash that the call returns, after whatever calls
  -- follow, provided that no other transaction that the protocol holds or is given by these calls has
  -- the same hash.
  pub get_transaction-submit :
      (p : M2mProtocol) (tx : M2mTransaction) (later : List M2mOp)
      → All (IsOnly tx) p.pending
      → All (IsOnly tx) p.completed
      → All (IsOnly tx) (submitted later)
      → get_transaction utf8 sha3
          (m2m_run later (submit utf8 sha3 p tx).0).0
          (submit utf8 sha3 p tx).1
        ≡ some tx
  unfolding submit get_transaction
  get_transaction-submit p tx later waiting handled new =
      let (found, e, same_hash) = found_by_hash p tx later in
      let all =
        run-All (IsOnly tx) later (submit utf8 sha3 p tx).0
          (All-append (IsOnly tx) p.pending (tx ∷ []) waiting ((λ h. refl), tt)) handled new in
      e
      ∙ ap (λ u. some u) (find_hash-All (IsOnly tx) (m2m_hash utf8 sha3 tx) _ found all e same_hash)
