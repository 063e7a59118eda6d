-- ===== src/Apiserver/Examples/Handlers.antt =====
-- Deletions over a store that keeps a log, of maps with finalizers.
use tugboat.Base.{
  subst, ◌≡◌, refl, String, Bool, true, false, Option, some, [], ◌∷◌, if◌then◌else◌, eqb, arith,
}
use tugboat.Base.Results.{Result, ok, err, ok_injective}
use tugboat.Base.Int.{pos}
use tugboat.Base.Text.{parse_i64, parse_number, parse_digits}
use tugboat.Base.Decimal.{to_string, to_string_ℕ, write_digits}
use tugboat.Manifests.Meta.{ObjectMeta, Time, default_meta}
use tugboat.Manifests.Resource.{mark_for_deletion, is_deleting}
use tugboat.Store.Etcd.{Bytes, put_op}
use tugboat.Store.Keys.{Error, protobuf_deserialization, ResourceType, create_key}
use tugboat.Store.Operations.{apply_revision, put, put_many, get, prepare_put_inner}
use tugboat.Store.Examples.Log.{
  log_etcd, log_view, log_etcd-Behaves, txn, lookup, append, answer_op,
}
use tugboat.Apiserver.Handlers.{delete_resource}
use tugboat.Apiserver.Handlers.Deletion.{HasMetadata, KeepsMarks, Leaves, delete_resource-Leaves}

abbrev guarded_meta : ObjectMeta
guarded_meta = record default_meta {
  name = some "demo";
  namespace = some "default";
  finalizers = "cleanup" ∷ [];
}

abbrev noon : Time
noon = record { seconds = pos 43200; nanos = pos 0 }

-- A stored map says whether it is marked for deletion.
abbrev meta_bytes : Option ObjectMeta → Bytes
meta_bytes meta = if is_deleting meta then 1 ∷ [] else 0 ∷ []

abbrev decode_map : Bytes → Result Error (Option ObjectMeta)
decode_map [] = err (protobuf_deserialization "buffer underflow")
decode_map (b ∷ more) = ok (
    some (if eqb b 0 then guarded_meta else record guarded_meta { deletion_timestamp = some noon }))

abbrev map_type : ResourceType
map_type = record {
  T = Option ObjectMeta;
  object_meta = λ t. t;
  modify_object_meta = λ change t. change t;
  is_cluster_scoped = false;
  group = "core";
  plural = "maps";
  serialize = λ t. ok (meta_bytes t);
  deserialize = decode_map;
}

-- Two maps are the same if both or neither are marked.
abbrev same_mark : Option ObjectMeta → Option ObjectMeta → Bool
same_mark a b = if is_deleting a then is_deleting b else (if is_deleting b then false else true)

abbrev map_key : String
map_key = "/tugboat/registry/core/maps/default/demo"

stored_map : log_etcd.World
unfolding log_etcd
stored_map = (put_op map_key (0 ∷ []) ∷ []) ∷ []

marked_map : log_etcd.World
unfolding log_etcd
marked_map = (put_op map_key (1 ∷ []) ∷ []) ∷ (put_op map_key (0 ∷ []) ∷ []) ∷ []

abbrev marked_answer : Option ObjectMeta
marked_answer =
    some (record guarded_meta { deletion_timestamp = some noon; resource_version = some "2" })

create_key-map : create_key map_type (some "default") "demo" ≡ ok map_key
unfolding create_key
create_key-map = refl

log_view-map :
    log_view stored_map map_key
    ≡ some (record { value = 0 ∷ []; create_revision = pos 1; mod_revision = pos 1 })
unfolding log_view lookup stored_map log_etcd
log_view-map = refl

delete_resource-map :
    delete_resource log_etcd map_type same_mark stored_map (some "default") "demo" noon
    ≡ (ok marked_answer, marked_map)
unfolding delete_resource get put put_many prepare_put_inner create_key apply_revision
    mark_for_deletion parse_i64 parse_number parse_digits to_string to_string_ℕ write_digits
    log_etcd txn append lookup answer_op stored_map marked_map
delete_resource-map = refl

map_metadata : HasMetadata log_etcd log_view log_etcd-Behaves map_type same_mark
unfolding HasMetadata
map_metadata change t = refl

read_back :
    (mark : Bool)
    → (read : Option ObjectMeta) × (decode_map (if mark then 1 ∷ [] else 0 ∷ []) ≡ ok read)
      × (is_deleting read ≡ mark)
read_back true = (_, refl, refl)
read_back false = (_, refl, refl)

map_marks : KeepsMarks log_etcd log_view log_etcd-Behaves map_type same_mark
map_marks = record {
  encoded = λ value bytes e.
      let (read, decoded, mark) = read_back (is_deleting value) in
      (read, subst (λ b. decode_map b ≡ ok read) (ok_injective e) decoded, mark);
  equal_marks = λ a b e. ground arith;
}

delete_resource-Leaves_example :
    Leaves log_etcd log_view log_etcd-Behaves map_type same_mark map_metadata map_marks marked_map
      map_key
      (some guarded_meta)
      marked_answer
delete_resource-Leaves_example =
    delete_resource-Leaves log_etcd log_view log_etcd-Behaves map_type same_mark map_metadata
      map_marks stored_map marked_map (some guarded_meta) marked_answer guarded_meta
      (some "default") "demo" map_key noon
      (record { value = 0 ∷ []; create_revision = pos 1; mod_revision = pos 1 }) create_key-map
      log_view-map refl refl refl refl delete_resource-map
