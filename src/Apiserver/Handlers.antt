-- ===== src/Apiserver/Handlers.antt =====
-- tugboat-apiserver/src/endpoints/resource_handlers.rs: `read_resource` and `delete_resource`, over the
-- resource store. The clock's time is an argument.
pub mod Deletion
use tugboat.Base.{String, Bool, true, false, Option, none, some, if◌then◌else◌}
use tugboat.Base.Results.{Result, ok, err}
use tugboat.Manifests.Meta.{ObjectMeta, Time}
use tugboat.Manifests.Resource.{has_finalizers, mark_for_deletion}
use tugboat.Store.Etcd.{Etcd}
use tugboat.Store.Keys.{Error, ResourceType}
use tugboat.Store.Operations.{ContentData, apply_revision, put, get, delete}

-- What the handlers answer instead of a resource.
pub data StatusResponse : Type 0 where
  not_found : StatusResponse
  store_failed : Error → StatusResponse

-- `T: PartialEq` is the test `equal`.
module _ (etcd : Etcd) (R : ResourceType) (equal : R.T → R.T → Bool) where
  abbrev pub Response : Type 0
  Response = Result StatusResponse R.T × etcd.World

  abbrev pub found_or : Result Error (Option (ContentData R.T)) × etcd.World → Response
  found_or (err e, w) = (err (store_failed e), w)
  found_or (ok none, w) = (err not_found, w)
  found_or (ok (some c), w) = (ok (apply_revision R c), w)

  unfoldable pub read_resource : etcd.World → Option String → String → Response
  read_resource w namespace name = found_or (get etcd R w namespace name)

  abbrev pub after_put : Result Error (ContentData R.T) × etcd.World → Response
  after_put (err e, w) = (err (store_failed e), w)
  after_put (ok c, w) = (ok (apply_revision R c), w)

  -- The resource that was read, with its finalizers looked at.
  abbrev pub delete_current : Option String → String → Time → R.T → etcd.World → Response
  delete_current namespace name now current w =
      let pending = R.modify_object_meta (λ meta. mark_for_deletion meta now) current in
      elim (has_finalizers (R.object_meta current)) [
        | true ↦ elim (equal current pending) [
          | true ↦ (ok pending, w)
          | false ↦ after_put (put etcd R w pending)
        ]
        | false ↦ found_or (delete etcd R w namespace name)
      ]

  abbrev pub after_current :
      Option String
      → String
      → Time
      → Result Error (Option (ContentData R.T)) × etcd.World
      → Response
  after_current namespace name now (err e, w) = (err (store_failed e), w)
  after_current namespace name now (ok none, w) = (err not_found, w)
  after_current namespace name now (ok (some c), w) =
      delete_current namespace name now (apply_revision R c) w

  unfoldable pub delete_resource : etcd.World → Option String → String → Time → Response
  delete_resource w namespace name now =
      after_current namespace name now (get etcd R w namespace name)
