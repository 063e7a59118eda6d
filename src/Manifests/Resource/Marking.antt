-- ===== src/Manifests/Resource/Marking.antt =====
-- A resource that is marked for deletion keeps its place.
use tugboat.Base.{◌≡◌, refl, inl, inr, true, Option, none, some, Bool-cases, is_some}
use tugboat.Manifests.Meta.{ObjectMeta, Time}
use tugboat.Manifests.Resource.{is_deleting, mark_for_deletion, mark_meta}

pub is_deleting-mark_for_deletion :
    (meta : Option ObjectMeta) (now : Time) → is_deleting (mark_for_deletion meta now) ≡ true
unfolding mark_for_deletion
is_deleting-mark_for_deletion none now = refl
is_deleting-mark_for_deletion (some meta) now =
    elim (Bool-cases (is_some meta.deletion_timestamp)) [ inl e ↦ rw e e | inr e ↦ rw e refl ]

pub mark_meta_place :
    (meta : ObjectMeta) (now : Time)
    → ((mark_meta meta now).name ≡ meta.name) × ((mark_meta meta now).namespace ≡ meta.namespace)
mark_meta_place meta now = elim (Bool-cases (is_some meta.deletion_timestamp)) [
  | inl e ↦ rw e (refl, refl)
  | inr e ↦ rw e (refl, refl)
]
