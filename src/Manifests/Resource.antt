-- ===== src/Manifests/Resource.antt =====
-- tugboat-resources/src/lib.rs: the methods of `ObjectMetaResource`, on the metadata that they read
-- and change.
pub mod Finalizers
pub mod Marking
use tugboat.Base.{
  ◌≡◌, refl, String, Bool, true, false, not, Option, none, some, List, [], ◌∷◌, ◌++◌, ◌==◌, is_some,
  if◌then◌else◌,
}
use tugboat.Base.Lists.{any, filter, is_empty}
use tugboat.Manifests.Meta.{ObjectMeta, Time, default_meta}

abbrev pub finalizers : Option ObjectMeta → List String
finalizers none = []
finalizers (some meta) = meta.finalizers

abbrev pub has_finalizers : Option ObjectMeta → Bool
has_finalizers meta = not (is_empty (finalizers meta))

abbrev pub has_finalizer : Option ObjectMeta → String → Bool
has_finalizer meta name = any (λ item. item == name) (finalizers meta)

abbrev pub push_finalizer : ObjectMeta → String → ObjectMeta
push_finalizer meta name =
    if any (λ item. item == name) meta.finalizers
    then meta
    else record meta { finalizers = meta.finalizers ++ name ∷ [] }

-- The metadata that `add_finalizer` leaves.
unfoldable pub add_finalizer : Option ObjectMeta → String → Option ObjectMeta
add_finalizer none name = some (push_finalizer default_meta name)
add_finalizer (some meta) name = some (push_finalizer meta name)

-- The metadata that `remove_finalizer` leaves.
unfoldable pub remove_finalizer : Option ObjectMeta → String → Option ObjectMeta
remove_finalizer none name = none
remove_finalizer (some meta) name =
    some (record meta { finalizers = filter (λ item. not (item == name)) meta.finalizers })

abbrev pub deletion_timestamp : Option ObjectMeta → Option Time
deletion_timestamp none = none
deletion_timestamp (some meta) = meta.deletion_timestamp

abbrev pub is_deleting : Option ObjectMeta → Bool
is_deleting meta = is_some (deletion_timestamp meta)

abbrev pub mark_meta : ObjectMeta → Time → ObjectMeta
mark_meta meta timestamp =
    if is_some meta.deletion_timestamp
    then meta
    else record meta { deletion_timestamp = some timestamp }

-- The metadata that `mark_for_deletion` leaves.
unfoldable pub mark_for_deletion : Option ObjectMeta → Time → Option ObjectMeta
mark_for_deletion none timestamp = some (mark_meta default_meta timestamp)
mark_for_deletion (some meta) timestamp = some (mark_meta meta timestamp)
