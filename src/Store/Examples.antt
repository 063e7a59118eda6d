-- ===== src/Store/Examples.antt =====
-- The store's theorems at work on a store that keeps a log, for a type of notes.
pub mod Log
use tugboat.Base.{
  ℕ, ◌≡◌, ◌↔◌, refl, ◌⊎◌, inl, inr, String, Bool, true, false, Option, none, some, List, [], ◌∷◌,
  Memᴰ, arith, eqb, if◌then◌else◌,
}
use tugboat.Base.Results.{Result, ok, err, ◌>>=◌, ok_or}
use tugboat.Base.Int.{ℤ, pos, negsuc, ◌≤ℤ◌}
use tugboat.Base.Text.{parse_i64, parse_number, parse_digits, i64_max}
use tugboat.Manifests.Meta.{ObjectMeta, default_meta}
use tugboat.Store.Etcd.{Bytes, KeyValue, TxnOp, put_op, Etcd, mod_revision_of}
use tugboat.Store.Keys.{
  Error, protobuf_deserialization, etcd_error, ResourceType, create_key, create_watch_key,
}
use tugboat.Store.Operations.{
  PutRequest, put_many, put, get, prepare_put_inner, put_if_not_exists, key_and_bytes,
}
use tugboat.Store.Atomicity.{AtomicPut, put_many-AtomicPut}
use tugboat.Store.Locking.{IsLockFailure, Creation, put-loses_no_update, put_if_not_exists-Creation}
use tugboat.Manifests.Names.{is_valid_name, matches_name}
use tugboat.Base.Options.{is_some}
use tugboat.Base.Text.{strip_prefix}
use tugboat.Store.Keyspace.{create_key-create_watch_key}
use tugboat.Store.RoundTrip.{get-put}
use tugboat.Store.Examples.Log.{
  log_etcd, log_view, log_etcd-Behaves, txn, lookup, append, answer_op,
}

pub record Note : Type 0 where
  pub title : String
  pub version : Option String
  pub body : ℕ

abbrev pub note_meta : Note → ObjectMeta
note_meta note = record default_meta {
  name = some note.title;
  namespace = some "default";
  resource_version = note.version;
}

abbrev pub note_version : Option ObjectMeta → Option String
note_version none = none
note_version (some meta) = meta.resource_version

-- Only the body of a note is encoded; a note that is decoded is the one called "demo".
abbrev pub decode_note : Bytes → Result Error Note
decode_note [] = err (protobuf_deserialization "buffer underflow")
decode_note (b ∷ more) = ok (record { title = "demo"; version = none; body = b })

abbrev pub note_type : ResourceType
note_type = record {
  T = Note;
  object_meta = λ note. some (note_meta note);
  modify_object_meta =
      λ change note. record note { version = note_version (change (some (note_meta note))) };
  is_cluster_scoped = false;
  group = "core";
  plural = "notes";
  serialize = λ note. ok (note.body ∷ []);
  deserialize = decode_note;
}

abbrev pub note_key : String
note_key = "/tugboat/registry/core/notes/default/demo"

abbrev note : Option String → ℕ → Note
note version body = record { title = "demo"; version = version; body = body }

abbrev note_request : Option ℤ → ℕ → PutRequest
note_request expected body = record {
  key = note_key;
  bytes = body ∷ [];
  expected_revision = expected;
}

empty_log : log_etcd.World
unfolding log_etcd
empty_log = []

-- The note was put once.
one_note : log_etcd.World
unfolding log_etcd
one_note = (put_op note_key (7 ∷ []) ∷ []) ∷ []

-- And then again.
two_puts : log_etcd.World
unfolding log_etcd
two_puts = (put_op note_key (8 ∷ []) ∷ []) ∷ (put_op note_key (7 ∷ []) ∷ []) ∷ []

abbrev two_requests : List PutRequest
two_requests =
    note_request (some (pos 1)) 8
    ∷ (record {
      key = "/tugboat/registry/core/notes/default/other";
      bytes = [];
      expected_revision = none;
    })
    ∷ []

put_many-AtomicPut_example :
    AtomicPut
      (log_view one_note)
      (log_view (put_many log_etcd one_note two_requests).1)
      two_requests
      (put_many log_etcd one_note two_requests).0
put_many-AtomicPut_example =
    put_many-AtomicPut log_etcd log_view log_etcd-Behaves one_note two_requests

prepare_put_inner-note :
    prepare_put_inner log_etcd note_type (note (some "1") 8) ≡ ok (note_request (some (pos 1)) 8)
unfolding prepare_put_inner create_key parse_i64 parse_number parse_digits
prepare_put_inner-note = refl

put-note :
    put log_etcd note_type one_note (note (some "1") 8)
    ≡ (ok (record { content = note (some "1") 8; revision = pos 2 }), two_puts)
unfolding put put_many prepare_put_inner create_key parse_i64 parse_number parse_digits log_etcd txn
    append lookup answer_op one_note two_puts
put-note = refl

mod_revision_of-note : mod_revision_of (log_view two_puts note_key) ≡ pos 2
unfolding log_view lookup two_puts log_etcd
mod_revision_of-note = refl

put-loses_no_update_example :
    let out = put log_etcd note_type two_puts (note (some "1") 8) in
    IsLockFailure (log_view two_puts) (log_view out.1) (pos 1) out.0
put-loses_no_update_example =
    put-loses_no_update log_etcd log_view log_etcd-Behaves note_type one_note two_puts two_puts
      (note (some "1") 8) (note (some "1") 8) (note_request (some (pos 1)) 8)
      (note_request (some (pos 1)) 8) (pos 1)
      (record { content = note (some "1") 8; revision = pos 2 }) prepare_put_inner-note
      prepare_put_inner-note refl refl refl put-note (rw mod_revision_of-note (omega arith))

key_and_bytes-note : key_and_bytes log_etcd note_type (note none 8) ≡ ok (note_key, 8 ∷ [])
unfolding create_key
key_and_bytes-note = refl

put_if_not_exists-Creation_example :
    let out = put_if_not_exists log_etcd note_type one_note (note none 8) in
    Creation (log_view one_note) (log_view out.1) note_key (8 ∷ []) (note none 8) out.0
put_if_not_exists-Creation_example =
    put_if_not_exists-Creation log_etcd log_view log_etcd-Behaves note_type one_note (note none 8)
      note_key (8 ∷ []) key_and_bytes-note

prepare_put_inner-plain_note :
    prepare_put_inner log_etcd note_type (note none 8) ≡ ok (note_request none 8)
unfolding prepare_put_inner create_key
prepare_put_inner-plain_note = refl

put-plain_note :
    put log_etcd note_type one_note (note none 8)
    ≡ (ok (record { content = note none 8; revision = pos 2 }), two_puts)
unfolding put put_many prepare_put_inner create_key log_etcd txn append lookup answer_op one_note
    two_puts
put-plain_note = refl

get-put_example :
    ((get log_etcd note_type two_puts (some "default") "demo").0
      ≡ ok (some (record { content = note none 8; revision = pos 2 })))
    ⊎ ((reason : String) × ((get log_etcd note_type two_puts (some "default") "demo").0
          ≡ err (etcd_error reason)))
get-put_example =
    get-put log_etcd log_view log_etcd-Behaves note_type one_note two_puts (note none 8)
      (note_request none 8) (note_meta (note none 8)) "demo"
      (record { content = note none 8; revision = pos 2 }) refl refl prepare_put_inner-plain_note
      refl put-plain_note

create_key-note : create_key note_type (some "default") "demo" ≡ ok note_key
unfolding create_key
create_key-note = refl

valid_names : (is_valid_name "default" ≡ true) × (is_valid_name "default-2" ≡ true)
unfolding is_valid_name matches_name
valid_names = (refl, refl)

create_key-create_watch_key_example :
    (is_some (strip_prefix note_key (create_watch_key note_type (some "default-2"))) ≡ true)
    ↔ Path String "default" "default-2"
create_key-create_watch_key_example =
    create_key-create_watch_key note_type "default" "default-2" "demo" note_key refl valid_names.0
      valid_names.1 create_key-note
