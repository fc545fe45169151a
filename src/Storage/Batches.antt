-- ===== src/Storage/Batches.antt =====
-- What a reader sees after a batch has been written.
-- The code is crates/frychain-storage/src/db.rs.
use fry_chain.Results.{Result, good, bad, bind_good}
use fry_chain.Storage.{
  Rocks, IsLawful, StorageError, StorageResult, WriteOp, put_op, delete_op, BatchOp, replayed,
  database_result, with_handle, write_op, write_ops, write_batch, is_open, all_cfs,
}
use fry_chain.Prelude.{
  ℕ, Bool, true, false, ◌≡◌, refl, ap, ◌∙◌, String, Option, List, [], ◌∷◌, ◌++◌, map, same,
  string_eq, if◌then◌else◌, All, arith,
}

pub database_result_good {ℓ} :
    {A : Type ℓ} (r : Result String A) (a : A) → database_result r ≡ good a → r ≡ good a
database_result_good (good x) a e = cc
database_result_good (bad m) a e = cc

if_good {ℓ} :
    {A : Type ℓ} (b : Bool) (r : StorageResult A) (x : StorageError) (a : A)
    → (if b then r else bad x) ≡ good a
    → r ≡ good a
if_good true r x a e = e
if_good false r x a e = cc

pub with_handle_good {ℓ} :
    {A : Type ℓ} (name : String) (r : StorageResult A) (a : A)
    → with_handle name r ≡ good a
    → r ≡ good a
with_handle_good name r a e = if_good (is_open name all_cfs) r _ a e

pub write_ops_good :
    (batch : List BatchOp) (ops : List WriteOp)
    → write_ops batch ≡ good ops
    → ops ≡ map write_op batch
write_ops_good [] ops e = cc
write_ops_good (op ∷ batch) ops e =
    let h = with_handle_good op.cf_name _ ops e in
    let (rest, r, s) = bind_good (write_ops batch) _ ops h in
    let tail = write_ops_good batch rest r in cc

pub replayed-append :
    (xs ys : List WriteOp) (name : String) (key : List ℕ) (seen : Result String (Option (List ℕ)))
    → replayed (xs ++ ys) name key seen ≡ replayed ys name key (replayed xs name key seen)
replayed-append [] ys name key seen = refl
replayed-append (put_op cf k v ∷ xs) ys name key seen = replayed-append xs ys name key _
replayed-append (delete_op cf k ∷ xs) ys name key seen = replayed-append xs ys name key _

pub map-append {ℓ κ} :
    {A : Type ℓ} {B : Type κ} (f : A → B) (xs ys : List A) → map f (xs ++ ys) ≡ map f xs ++ map f ys
map-append f [] ys = refl
map-append f (x ∷ xs) ys = ap (◌∷◌ (f x)) (map-append f xs ys)

-- Operations on one family are not seen in another.
pub replayed_elsewhere :
    (cf name : String)
    → same cf name ≡ false
    → (batch : List BatchOp) → All (λ op. op.cf_name ≡ cf) batch
    → (key : List ℕ) (seen : Result String (Option (List ℕ)))
    → replayed (map write_op batch) name key seen ≡ seen
replayed_elsewhere cf name h [] all key seen = refl
replayed_elsewhere cf name h (op ∷ batch) all key seen =
    let other : same op.cf_name name ≡ false = rw all.0 h in
    ground (arith, replayed_elsewhere cf name h batch all.1 key seen)

module _ (R : Rocks) (lawful : IsLawful R) where
  pub get-write_batch :
      (db db' : R.Db) (batch : List BatchOp) (name : String) (key : List ℕ)
      → write_batch R db batch ≡ good db'
      → R.get_cf db' name key ≡ replayed (map write_op batch) name key (R.get_cf db name key)
  unfolding write_batch
  get-write_batch db db' batch name key e =
      let (ops, w, r) = bind_good (write_ops batch) _ db' e in
      let written = database_result_good (R.write db ops) db' r in
      lawful.get-write db db' ops name key written
      ∙ ap (λ o. replayed o name key (R.get_cf db name key)) (write_ops_good batch ops w)
