-- ===== src/Store/Operations.antt =====
-- tugboat-resource-store/src/lib.rs: the store's operations on one resource, typed or custom. Each
-- takes the world of the etcd cluster and returns the next one.
use tugboat.Base.{
  String, Bool, true, false, ◌&&◌, Option, none, some, List, [], ◌∷◌, map, is_some, unwrap_or,
  if◌then◌else◌,
}
use tugboat.Base.Lists.{filter, filter_map, any, first}
use tugboat.Base.Results.{Result, ok, err, ◌>>=◌, ok_or}
use tugboat.Base.Int.{ℤ, pos, ltb_ℤ}
use tugboat.Base.Text.{parse_i64}
use tugboat.Base.Decimal.{to_string}
use tugboat.Manifests.Meta.{ObjectMeta, default_meta}
use mathlib.Core.Option
use tugboat.Store.Etcd.{
  Bytes, KeyValue, Compare, mod_equal, create_equal, TxnOp, put_op, get_op, delete_op,
  TxnOpResponse, put_done, get_done, delete_done, Txn, TxnResponse, Etcd,
}
use tugboat.Store.Keys.{
  Error, field_missing, invalid_field, etcd_error, optimistic_lock_failed, ResourceType,
  create_custom_key, create_key,
}

pub record PutRequest : Type 0 where
  pub key : String
  pub bytes : Bytes
  pub expected_revision : Option ℤ

pub record ContentData {ℓ} (T : Type ℓ) : Type ℓ where
  pub content : T
  pub revision : ℤ

-- The revision of the store becomes the resource's version.
abbrev pub versioned : String → Option ObjectMeta → Option ObjectMeta
versioned version none = some (record default_meta { resource_version = some version })
versioned version (some meta) = some (record meta { resource_version = some version })

module _ (R : ResourceType) where
  unfoldable pub apply_revision : ContentData R.T → R.T
  apply_revision c = R.modify_object_meta (versioned (to_string c.revision)) c.content

-- `request.expected_revision.map(|revision| Compare::mod_revision(..))`.
abbrev pub revision_compare : PutRequest → Option Compare
revision_compare request = Option.map (mod_equal request.key) request.expected_revision

abbrev pub has_expectation : PutRequest → Bool
has_expectation request = is_some request.expected_revision

abbrev pub to_put : PutRequest → TxnOp
to_put request = put_op request.key request.bytes

-- `find_map(|request| request.expected_revision).unwrap_or(0)`.
abbrev pub first_expected_revision : List PutRequest → ℤ
first_expected_revision requests =
    unwrap_or (first (filter_map (λ (r : PutRequest). r.expected_revision) requests)) (pos 0)

-- The transaction that `put_many` sends.
abbrev pub put_txn : List PutRequest → Txn
put_txn requests = record {
  when = filter_map revision_compare requests;
  and_then = map to_put requests;
  or_else =
      let reads = map (λ (r : PutRequest). get_op r.key) (filter has_expectation requests) in
      if any has_expectation requests then reads else [];
}

-- The number that the first deletion of a response reports.
abbrev pub first_deleted : List TxnOpResponse → Option Bool
first_deleted [] = none
first_deleted (delete_done n ∷ more) = some (ltb_ℤ (pos 0) n)
first_deleted (put_done ∷ more) = first_deleted more
first_deleted (get_done kvs ∷ more) = first_deleted more

abbrev pub starts_with_put : List TxnOpResponse → Bool
starts_with_put (put_done ∷ more) = true
starts_with_put (get_done kvs ∷ more) = false
starts_with_put (delete_done n ∷ more) = false
starts_with_put [] = false

abbrev pub custom_delete_txn : String → ℤ → Txn
custom_delete_txn key expected = record {
  when = mod_equal key expected ∷ [];
  and_then = delete_op key ∷ [];
  or_else = [];
}

abbrev pub create_txn : String → Bytes → Txn
create_txn key bytes = record {
  when = create_equal key (pos 0) ∷ [];
  and_then = put_op key bytes ∷ [];
  or_else = [];
}

-- The revision that `prepare_put_inner` reads from the metadata.
abbrev pub parse_expected : Option String → Result Error (Option ℤ)
parse_expected none = ok none
parse_expected (some text) = do
  revision ←
      ok_or (parse_i64 text) (invalid_field "metadata.resourceVersion" "must be a valid integer")
  ok (some revision)

module _ (etcd : Etcd) where
  abbrev pub answer_put_many :
      List PutRequest → Result String TxnResponse × etcd.World → Result Error ℤ × etcd.World
  answer_put_many requests (err e, w) = (err (etcd_error e), w)
  answer_put_many requests (ok response, w) =
      if response.succeeded
      then (ok (unwrap_or response.revision (pos 0)), w)
      else (err (optimistic_lock_failed (first_expected_revision requests)), w)

  unfoldable pub put_many : etcd.World → List PutRequest → Result Error ℤ × etcd.World
  put_many w [] = (ok (pos 0), w)
  put_many w (request ∷ more) =
      answer_put_many (request ∷ more) (etcd.txn w (put_txn (request ∷ more)))

  module _ (R : ResourceType) where
    unfoldable pub prepare_put_inner : R.T → Result Error PutRequest
    unfolding create_key
    prepare_put_inner value = do
      meta ← ok_or (R.object_meta value) (field_missing "metadata")
      name ← ok_or meta.name (field_missing "metadata.name")
      expected ← parse_expected meta.resource_version
      key ← create_key R meta.namespace name
      bytes ← R.serialize value
      ok (record { key = key; bytes = bytes; expected_revision = expected })

    unfoldable pub put : etcd.World → R.T → Result Error (ContentData R.T) × etcd.World
    unfolding prepare_put_inner put_many
    put w value = elim (prepare_put_inner value) [
      | err e ↦ (err e, w)
      | ok request ↦
          let (answer, w') = put_many w (request ∷ []) in
          ((do revision ← answer; ok (record { content = value; revision = revision })), w')
    ]

    -- The key and the value of a resource, where its revision is not looked at.
    abbrev pub key_and_bytes : R.T → Result Error (String × Bytes)
    key_and_bytes value = do
      meta ← ok_or (R.object_meta value) (field_missing "metadata")
      name ← ok_or meta.name (field_missing "metadata.name")
      key ← create_key R meta.namespace name
      bytes ← R.serialize value
      ok (key, bytes)

    abbrev pub answer_create :
        R.T
        → Result String TxnResponse × etcd.World
        → Result Error (Option (ContentData R.T)) × etcd.World
    answer_create value (err e, w) = (err (etcd_error e), w)
    answer_create value (ok response, w) =
        if starts_with_put response.op_responses && response.succeeded
        then (
          ok (some (record { content = value; revision = unwrap_or response.revision (pos 0) })),
          w,
        )
        else (ok none, w)

    unfoldable pub put_if_not_exists :
        etcd.World → R.T → Result Error (Option (ContentData R.T)) × etcd.World
    unfolding create_key
    put_if_not_exists w value = elim (key_and_bytes value) [
      | err e ↦ (err e, w)
      | ok (key, bytes) ↦ answer_create value (etcd.txn w (create_txn key bytes))
    ]

    abbrev pub read_first : List KeyValue → Result Error (Option (ContentData R.T))
    read_first [] = ok none
    read_first (kv ∷ more) = do
      value ← R.deserialize kv.value
      ok (some (record { content = value; revision = kv.mod_revision }))

    abbrev pub answer_get :
        Result String (List KeyValue) × etcd.World
        → Result Error (Option (ContentData R.T)) × etcd.World
    answer_get (err e, w) = (err (etcd_error e), w)
    answer_get (ok kvs, w) = (read_first kvs, w)

    unfoldable pub get :
        etcd.World → Option String → String → Result Error (Option (ContentData R.T)) × etcd.World
    unfolding create_key
    get w namespace name = elim (create_key R namespace name) [
      | err e ↦ (err e, w)
      | ok key ↦ answer_get (etcd.get w key)
    ]

    abbrev pub answer_delete :
        Result String (ℤ × List KeyValue) × etcd.World
        → Result Error (Option (ContentData R.T)) × etcd.World
    answer_delete (err e, w) = (err (etcd_error e), w)
    answer_delete (ok (deleted, prev_kvs), w) = (read_first prev_kvs, w)

    unfoldable pub delete :
        etcd.World → Option String → String → Result Error (Option (ContentData R.T)) × etcd.World
    unfolding create_key
    delete w namespace name = elim (create_key R namespace name) [
      | err e ↦ (err e, w)
      | ok key ↦ answer_delete (etcd.delete w key)
    ]

  -- `put_custom` with the value already encoded.
  unfoldable pub put_custom :
      etcd.World
      → String
      → String
      → Option String
      → String
      → Result Error Bytes
      → Option ℤ
      → Result Error ℤ × etcd.World
  unfolding create_custom_key put_many
  put_custom w group plural namespace name (err e) expected = (err e, w)
  put_custom w group plural namespace name (ok bytes) expected = put_many w (
      record {
        key = create_custom_key group plural namespace name;
        bytes = bytes;
        expected_revision = expected;
      }
      ∷ [])

  abbrev answer_delete_custom :
      ℤ → Result String TxnResponse × etcd.World → Result Error Bool × etcd.World
  answer_delete_custom expected (err e, w) = (err (etcd_error e), w)
  answer_delete_custom expected (ok response, w) =
      if response.succeeded
      then (ok (unwrap_or (first_deleted response.op_responses) false), w)
      else (err (optimistic_lock_failed expected), w)

  abbrev answer_plain_delete :
      Result String (ℤ × List KeyValue) × etcd.World → Result Error Bool × etcd.World
  answer_plain_delete (err e, w) = (err (etcd_error e), w)
  answer_plain_delete (ok (deleted, prev_kvs), w) = (ok (ltb_ℤ (pos 0) deleted), w)

  unfoldable pub delete_custom :
      etcd.World
      → String
      → String
      → Option String
      → String
      → Option ℤ
      → Result Error Bool × etcd.World
  unfolding create_custom_key
  delete_custom w group plural namespace name none =
      answer_plain_delete (etcd.delete w (create_custom_key group plural namespace name))
  delete_custom w group plural namespace name (some expected) =
      answer_delete_custom expected
        (etcd.txn w (custom_delete_txn (create_custom_key group plural namespace name) expected))
