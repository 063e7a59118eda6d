-- ===== src/Store/Etcd.antt =====
-- The etcd client, as far as tugboat-resource-store/src/lib.rs calls it: transactions, reads and
-- deletions of one key, reads under a prefix. It is third-party code, so it is a parameter, and
-- `Behaves` says what etcd documents of its answers.
use tugboat.Base.{
  ℕ, ◌≡◌, String, Bool, true, false, not, ◌&&◌, Option, none, some, List, [], ◌∷◌, ◌==◌,
  if◌then◌else◌,
}
use tugboat.Base.Lists.{all, any, is_empty}
use tugboat.Base.Results.{Result, ok}
use tugboat.Base.Int.{ℤ, pos, ◌<ℤ◌, eq_ℤ}

abbrev pub Bytes : Type 0
Bytes = List ℕ

pub record KeyValue : Type 0 where
  pub value : Bytes
  pub create_revision : ℤ
  pub mod_revision : ℤ

-- `Compare::mod_revision` and `Compare::create_revision` with `CompareOp::Equal`.
pub data Compare : Type 0 where
  mod_equal : String → ℤ → Compare
  create_equal : String → ℤ → Compare

pub data TxnOp : Type 0 where
  put_op : String → Bytes → TxnOp
  get_op : String → TxnOp
  delete_op : String → TxnOp

-- A deletion is answered with the number of keys that it removed.
pub data TxnOpResponse : Type 0 where
  put_done : TxnOpResponse
  get_done : List KeyValue → TxnOpResponse
  delete_done : ℤ → TxnOpResponse

pub record Txn : Type 0 where
  pub when : List Compare
  pub and_then : List TxnOp
  pub or_else : List TxnOp

pub record TxnResponse : Type 0 where
  pub succeeded : Bool
  pub revision : Option ℤ
  pub op_responses : List TxnOpResponse

-- The header's revision and the pairs that a read under a prefix found.
pub record GetResponse : Type 0 where
  pub revision : Option ℤ
  pub kvs : List KeyValue

-- The client's errors are texts.
pub record Etcd : Type 1 where
  pub World : Type 0
  pub txn : World → Txn → Result String TxnResponse × World
  pub get : World → String → Result String (List KeyValue) × World
  pub get_prefix : World → String → Option ℤ → Result String GetResponse × World
  pub delete : World → String → Result String (ℤ × List KeyValue) × World

abbrev pub created_at : ℤ → Option KeyValue → ℤ
created_at rev none = rev
created_at rev (some kv) = kv.create_revision

-- What a successful transaction with these operations leaves under a key that held `old`.
abbrev pub written : ℤ → List TxnOp → String → Option KeyValue → Option KeyValue
written rev [] k old = old
written rev (put_op j bytes ∷ ops) k old =
    let rest = written rev ops k old in
    if j == k
    then some (record { value = bytes; create_revision = created_at rev old; mod_revision = rev })
    else rest
written rev (get_op j ∷ ops) k old = written rev ops k old
written rev (delete_op j ∷ ops) k old =
    let rest = written rev ops k old in if j == k then none else rest

-- A key that is absent compares with the revision 0.
abbrev pub mod_revision_of : Option KeyValue → ℤ
mod_revision_of none = pos 0
mod_revision_of (some kv) = kv.mod_revision

abbrev pub create_revision_of : Option KeyValue → ℤ
create_revision_of none = pos 0
create_revision_of (some kv) = kv.create_revision

abbrev pub to_list : Option KeyValue → List KeyValue
to_list none = []
to_list (some kv) = kv ∷ []

abbrev pub holds : (String → Option KeyValue) → Compare → Bool
holds lookup (mod_equal k rev) = eq_ℤ (mod_revision_of (lookup k)) rev
holds lookup (create_equal k rev) = eq_ℤ (create_revision_of (lookup k)) rev

abbrev pub puts_to : String → TxnOp → Bool
puts_to k (put_op j bytes) = j == k
puts_to k (get_op j) = false
puts_to k (delete_op j) = false

-- etcd refuses a transaction that puts to a key twice.
abbrev pub are_distinct : List TxnOp → Bool
are_distinct [] = true
are_distinct (put_op k bytes ∷ ops) = not (any (puts_to k) ops) && are_distinct ops
are_distinct (get_op k ∷ ops) = are_distinct ops
are_distinct (delete_op k ∷ ops) = are_distinct ops

abbrev pub only_reads : List TxnOp → Bool
only_reads [] = true
only_reads (get_op k ∷ ops) = only_reads ops
only_reads (put_op k bytes ∷ ops) = false
only_reads (delete_op k ∷ ops) = false

-- What etcd documents, where `lookup` is what a world of the cluster holds under a key. A request
-- that ends in an error may have been carried out or not, so nothing is said of its world.
pub record Behaves (etcd : Etcd) (lookup : etcd.World → String → Option KeyValue) : Type 0 where
  pub txn-compares :
      {w w' : etcd.World} {t : Txn} {r : TxnResponse}
      → etcd.txn w t ≡ (ok r, w')
      → r.succeeded ≡ all (holds (lookup w)) t.when
  pub txn-writes :
      {w w' : etcd.World} {t : Txn} {r : TxnResponse}
      → etcd.txn w t ≡ (ok r, w')
      → r.succeeded ≡ true
      → is_empty t.and_then ≡ false
      → (rev : ℤ) × (r.revision ≡ some rev)
        × ((k : String) → lookup w' k ≡ written rev t.and_then k (lookup w k))
        × (are_distinct t.and_then ≡ true)
  -- The revision of a transaction is positive, and above those of the keys that are there.
  pub txn-fresh :
      {w w' : etcd.World} {t : Txn} {r : TxnResponse} {rev : ℤ}
      → etcd.txn w t ≡ (ok r, w')
      → r.succeeded ≡ true
      → is_empty t.and_then ≡ false
      → r.revision ≡ some rev
      → (k : String) → (mod_revision_of (lookup w k) <ℤ rev) × (pos 0 <ℤ rev)
  pub txn-refuses :
      {w w' : etcd.World} {t : Txn} {r : TxnResponse}
      → etcd.txn w t ≡ (ok r, w')
      → r.succeeded ≡ false
      → only_reads t.or_else ≡ true
      → (k : String) → lookup w' k ≡ lookup w k
  pub put-answers :
      {w w' : etcd.World} {t : Txn} {r : TxnResponse} {k : String} {bytes : Bytes}
      → etcd.txn w t ≡ (ok r, w')
      → r.succeeded ≡ true
      → t.and_then ≡ put_op k bytes ∷ []
      → r.op_responses ≡ put_done ∷ []
  pub create-positive :
      (w : etcd.World) (k : String) (kv : KeyValue)
      → lookup w k ≡ some kv
      → (pos 0 <ℤ kv.create_revision) × (pos 0 <ℤ kv.mod_revision)
  pub get-finds :
      {w w' : etcd.World} {k : String} {kvs : List KeyValue}
      → etcd.get w k ≡ (ok kvs, w')
      → (kvs ≡ to_list (lookup w k)) × ((j : String) → lookup w' j ≡ lookup w j)
  pub delete-removes :
      {w w' : etcd.World} {k : String} {n : ℤ} {kvs : List KeyValue}
      → etcd.delete w k ≡ (ok (n, kvs), w')
      → (kvs ≡ to_list (lookup w k))
        × ((j : String) → lookup w' j ≡ (if k == j then none else lookup w j))
