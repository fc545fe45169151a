-- ===== src/Storage/Toy.antt =====
-- A database in memory, and codecs for one value each: the parameters of the storage layer at concrete
-- functions.
use fry_chain.Results.{Result, good, bad}
use fry_chain.Storage.{Rocks, IsLawful, WriteOp, put_op, delete_op, replayed, StorageResult}
use fry_chain.Storage.Chain.{Codec, BlockMeta, Codecs}
use fry_chain.Storage.Chain.Spec.{IsCodec, AreCodecs}
use fry_chain.Prelude.{
  ℕ, Bool, true, false, ◌&&◌, ◌≡◌, refl, ap, sym, ◌∙◌, String, Option, none, some, List, [], ◌∷◌,
  if◌then◌else◌, same, string_eq, list_eq, nat_eq, subst, not, arith, ◌==◌, list_beq_iff, length,
  get_or, replicate,
}
use fry_chain.Core.Block.{BlockHeader, BlockBody, new_header, Block, StoredBlock, new_stored}
use fry_chain.Core.Address.{address_beq_iff, address_eq, Address, standard}
use fry_chain.Core.Transaction.{SignedTransaction}
use fry_chain.Core.Hash.{Hash256, zero_hash}

abbrev pub Table : Type 0
Table = String → List ℕ → Option (List ℕ)

abbrev pub empty_table : Table
empty_table name key = none

abbrev table_op : WriteOp → Table → Table
table_op (put_op cf k v) db name key = if same cf name && same k key then some v else db name key
table_op (delete_op cf k) db name key = if same cf name && same k key then none else db name key

abbrev table_ops : List WriteOp → Table → Table
table_ops [] db = db
table_ops (op ∷ ops) db = table_ops ops (table_op op db)

abbrev pub memory_rocks : Rocks
memory_rocks = record {
  Db = Table;
  get_cf = λ db name key. good (db name key);
  put_cf = λ db cf k v. good (table_op (put_op cf k v) db);
  delete_cf = λ db cf k. good (table_op (delete_op cf k) db);
  write = λ db ops. good (table_ops ops db);
}

good_if :
    (c : Bool) (a b : Option (List ℕ))
    → ◌≡◌ {A = Result String (Option (List ℕ))}
        (good (if c then a else b))
        (if c then good a else good b)
good_if true a b = refl
good_if false a b = refl

table_ops-replayed :
    (ops : List WriteOp) (db : Table) (name : String) (key : List ℕ)
    → ◌≡◌ {A = Result String (Option (List ℕ))}
        (good (table_ops ops db name key))
        (replayed ops name key (good (db name key)))
table_ops-replayed [] db name key = refl
table_ops-replayed (put_op cf k v ∷ ops) db name key =
    table_ops-replayed ops (table_op (put_op cf k v) db) name key
    ∙ ap (replayed ops name key) (good_if (same cf name && same k key) (some v) (db name key))
table_ops-replayed (delete_op cf k ∷ ops) db name key =
    table_ops-replayed ops (table_op (delete_op cf k) db) name key
    ∙ ap (replayed ops name key) (good_if (same cf name && same k key) none (db name key))

good_same : (a b : Table) → ◌≡◌ {A = Result String Table} (good a) (good b) → a ≡ b
good_same a b e = cc

-- What was written is what the table holds.
written :
    (db db' : Table) (ops : List WriteOp) (name : String) (key : List ℕ)
    → ◌≡◌ {A = Result String Table} (good (table_ops ops db)) (good db')
    → ◌≡◌ {A = Result String (Option (List ℕ))}
        (good (db' name key))
        (replayed ops name key (good (db name key)))
written db db' ops name key e =
    ap (λ (t : Table). good (t name key)) (sym (good_same (table_ops ops db) db' e))
    ∙ table_ops-replayed ops db name key

pub memory_rocks-IsLawful : IsLawful memory_rocks
memory_rocks-IsLawful = record {
  get-put = λ db db' cf k v name key e. written db db' (put_op cf k v ∷ []) name key e;
  get-delete = λ db db' cf k name key e. written db db' (delete_op cf k ∷ []) name key e;
  get-write = λ db db' ops name key e. written db db' ops name key e;
}

-- A codec that knows two values, by a test for each.
abbrev pub two_values {ℓ} : {A : Type ℓ} → (A → A → Bool) → A → A → Codec A
two_values test a b = record {
  serialize = λ x. if test x a then some (1 ∷ []) else if test x b then some (2 ∷ []) else none;
  deserialize = λ bytes. if same bytes (1 ∷ []) then some a else some b;
}

module _ {ℓ} {A : Type ℓ} (test : A → A → Bool) (a b : A)
    (sound : (x y : A) → test x y ≡ true → x ≡ y) where
  chosen :
      (c d : Bool) (x : A) (bytes : List ℕ)
      → (c ≡ true → x ≡ a)
      → (d ≡ true → x ≡ b)
      → (if c then some (1 ∷ []) else if d then some (2 ∷ []) else none) ≡ some bytes
      → (if same bytes (1 ∷ []) then some a else some b) ≡ some x
  chosen true d x bytes h k e =
      let first : 1 ∷ [] ≡ bytes = cc in
      subst (λ bs. (if same bs (1 ∷ []) then some a else some b) ≡ some x) first
        (ap (λ (y : A). some y) (sym (h refl)))
  chosen false true x bytes h k e =
      let second : 2 ∷ [] ≡ bytes = cc in
      subst (λ bs. (if same bs (1 ∷ []) then some a else some b) ≡ some x) second
        (ap (λ (y : A). some y) (sym (k refl)))
  chosen false false x bytes h k e = cc

  pub two_values-IsCodec : IsCodec (two_values test a b)
  two_values-IsCodec = record {
    round = λ x bytes e. chosen (test x a) (test x b) x bytes (sound x a) (sound x b) e;
  }

-- Tests for the values of the store.
abbrev pub same_header : BlockHeader → BlockHeader → Bool
same_header a b =
    a.version == b.version
    && a.height == b.height
    && a.timestamp == b.timestamp
    && same a.parent_hash b.parent_hash
    && same a.transactions_root b.transactions_root
    && same a.state_root b.state_root
    && same a.receipts_root b.receipts_root
    && same a.miner b.miner
    && a.difficulty == b.difficulty
    && a.nonce == b.nonce
    && same a.extra_data b.extra_data
    && a.gas_used == b.gas_used
    && a.gas_limit == b.gas_limit

pub same_header_sound : (a b : BlockHeader) → same_header a b ≡ true → a ≡ b
same_header_sound a b h = ground (
  arith,
  list_beq_iff a.parent_hash b.parent_hash,
  list_beq_iff a.transactions_root b.transactions_root,
  list_beq_iff a.state_root b.state_root,
  list_beq_iff a.receipts_root b.receipts_root,
  address_beq_iff a.miner b.miner,
  list_beq_iff a.extra_data b.extra_data,
)

-- Only bodies without transactions pass.
abbrev pub empty_body : BlockBody → BlockBody → Bool
empty_body a b = no_transactions a.transactions && no_transactions b.transactions
  where
    no_transactions : List SignedTransaction → Bool
    no_transactions [] = true
    no_transactions (tx ∷ txs) = false

pub empty_body_sound : (a b : BlockBody) → empty_body a b ≡ true → a ≡ b
empty_body_sound a b h = ground arith

abbrev pub same_bool : Bool → Bool → Bool
same_bool true c = c
same_bool false c = not c

abbrev pub same_meta : BlockMeta → BlockMeta → Bool
same_meta a b =
    same a.pow_hash b.pow_hash
    && a.total_difficulty == b.total_difficulty
    && same_bool a.is_canonical b.is_canonical

pub same_meta_sound : (a b : BlockMeta) → same_meta a b ≡ true → a ≡ b
same_meta_sound a b h = ground (arith, list_beq_iff a.pow_hash b.pow_hash)

-- A codec that knows nothing.
abbrev pub no_values {ℓ} : {A : Type ℓ} → Codec A
no_values = record { serialize = λ x. none; deserialize = λ bytes. none }

-- The database after a call that succeeds.
abbrev pub table_of : StorageResult Table → Table
table_of (good db) = db
table_of (bad e) = empty_table

-- A genesis block, and a block on it. The stand-in for the hash shows the height of a header.
abbrev pub toy_sha3 : List ℕ → Hash256
toy_sha3 x = get_or x 4 0 ∷ replicate 31 1

pub toy_sha3_width : (x : List ℕ) → length (toy_sha3 x) ≡ 32
toy_sha3_width x = refl

abbrev pub toy_miner : Address
toy_miner = record { addr_type = standard; bytes = replicate 32 4 }

abbrev pub genesis_header : BlockHeader
genesis_header = new_header 100 0 zero_hash toy_miner 5000

abbrev pub child_header : BlockHeader
child_header = new_header 160 1 (0 ∷ replicate 31 1) toy_miner 1000

abbrev pub no_body : BlockBody
no_body = record { transactions = [] }

abbrev pub genesis_block : Block
genesis_block = record { header = genesis_header; body = no_body }

abbrev pub child_block : Block
child_block = record { header = child_header; body = no_body }

abbrev pub genesis_stored : StoredBlock
genesis_stored = new_stored genesis_block (0 ∷ replicate 31 1) 5000

abbrev pub child_stored : StoredBlock
child_stored = new_stored child_block zero_hash 6000

abbrev pub toy_codecs : Codecs
toy_codecs = record {
  header = two_values same_header genesis_header child_header;
  body = two_values empty_body no_body no_body;
  meta =
      two_values same_meta
        (record { pow_hash = 0 ∷ replicate 31 1; total_difficulty = 5000; is_canonical = true })
        (record { pow_hash = zero_hash; total_difficulty = 6000; is_canonical = true });
  location = no_values;
  receipt = no_values;
}

pub toy_codecs-AreCodecs : AreCodecs toy_codecs
toy_codecs-AreCodecs = record {
  header = two_values-IsCodec same_header genesis_header child_header same_header_sound;
  body = two_values-IsCodec empty_body no_body no_body empty_body_sound;
  meta = two_values-IsCodec same_meta _ _ same_meta_sound;
}

abbrev pub toy_hex : List ℕ → List ℕ
toy_hex hash = hash

pub toy_hex_injective : (a b : List ℕ) → toy_hex a ≡ toy_hex b → a ≡ b
toy_hex_injective a b e = e
