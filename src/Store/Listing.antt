-- ===== src/Store/Listing.antt =====
-- tugboat-resource-store/src/lib.rs: `list_with_revision`, `list` and `list_custom`, and the revision
-- that a watch starts at (watch.rs).
use tugboat.Base.{String, Option, List, [], ◌∷◌, unwrap_or, ℕ}
use tugboat.Base.Results.{Result, ok, err, ◌>>=◌}
use tugboat.Base.Int.{ℤ, pos, as_i64}
use mathlib.Core.Option
use tugboat.Store.Etcd.{KeyValue, GetResponse, Etcd}
use tugboat.Store.Keys.{Error, etcd_error, ResourceType, create_watch_key}
use tugboat.Store.Operations.{ContentData}

module _ (R : ResourceType) where
  -- The loop over the pairs: the first that does not decode ends it.
  unfoldable pub decode_all : List KeyValue → Result Error (List (ContentData R.T))
  decode_all [] = ok []
  decode_all (kv ∷ kvs) = do
    value ← R.deserialize kv.value
    rest ← decode_all kvs
    ok ((record { content = value; revision = kv.mod_revision }) ∷ rest)

module _ (etcd : Etcd) where
  module _ (R : ResourceType) where
    abbrev answer_list :
        Result String GetResponse × etcd.World
        → Result Error (List (ContentData R.T) × ℤ) × etcd.World
    answer_list (err e, w) = (err (etcd_error e), w)
    answer_list (ok response, w) = (
      (do contents ← decode_all R response.kvs; ok (contents, unwrap_or response.revision (pos 0))),
      w,
    )

    unfoldable pub list_with_revision :
        etcd.World
        → Option String
        → Option ℕ
        → Result Error (List (ContentData R.T) × ℤ) × etcd.World
    unfolding create_watch_key decode_all
    list_with_revision w namespace limit =
        answer_list (etcd.get_prefix w (create_watch_key R namespace) (Option.map as_i64 limit))

    unfoldable pub list :
        etcd.World → Option String → Option ℕ → Result Error (List (ContentData R.T)) × etcd.World
    unfolding list_with_revision
    list w namespace limit =
        let (answer, w') = list_with_revision w namespace limit in
        ((do found ← answer; ok found.0), w')
