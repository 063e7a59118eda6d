-- ===== src/Scheduler/Cycle/Claims.antt =====
-- Which claims of a ship tugboat-scheduler/src/scheduler.rs annotates with the chosen node.
use tugboat.Base.{
  ◌≡◌, refl, ap, ◌∙◌, ◌≢◌, ◌⊎◌, inl, inr, String, true, false, none, some, arith, Option-cases,
  eq_iff,
}
use tugboat.Base.Dict.{get}
use tugboat.Base.Text.{is_blank}
use tugboat.Manifests.Meta.{ObjectMeta, is_named}
use tugboat.Manifests.Storage.{
  PersistentVolumeClaim, PersistentVolumeClaimSpec, StorageClass, StorageClassSpec,
}
use tugboat.Scheduler.Context.{SchedulingContext, is_unbound_wffc_claim, find_storage_class}
use tugboat.Scheduler.Cycle.{claim_to_annotate, selected_node}

-- The claim of this name waits for its first consumer, as its storage class says, is not bound to a
-- volume, and its annotation does not name the node.
pub record NeedsNode (ctx : SchedulingContext) (node_name : String) (pvc : PersistentVolumeClaim)
    (claim : String) : Type 0 where
  pub meta : ObjectMeta
  pub has_meta : pvc.object_meta ≡ some meta
  pub named : meta.name ≡ some claim
  pub not_selected : get "volume.tugboat.cloud/selected-node" meta.annotations ≢ some node_name
  pub spec : PersistentVolumeClaimSpec
  pub has_spec : pvc.spec ≡ some spec
  pub unbound : (spec.volume_name ≡ none) ⊎ (spec.volume_name ≡ some "")
  pub class_name : String
  pub has_class : spec.storage_class_name ≡ some class_name
  pub class_not_blank : class_name ≢ ""
  pub storage_class : StorageClass
  pub class_found : find_storage_class ctx class_name ≡ some storage_class
  pub class_spec : StorageClassSpec
  pub class_has_spec : storage_class.spec ≡ some class_spec
  pub waits : class_spec.volume_binding_mode ≡ some "WaitForFirstConsumer"

not_blank : (s : String) → s ≢ "" → is_blank s ≡ false
not_blank s h = ground (arith, eq_iff s "")

NeedsNode-waits :
    (ctx : SchedulingContext) (node_name : String) (pvc : PersistentVolumeClaim) (claim : String)
    → NeedsNode ctx node_name pvc claim
    → is_unbound_wffc_claim ctx pvc ≡ true
unfolding is_unbound_wffc_claim
NeedsNode-waits ctx node_name pvc claim n =
    let filled = not_blank n.class_name n.class_not_blank in
    elim n.unbound [
      | inl e ↦
          rw
            (
              n.has_spec, e, n.has_class, filled, n.class_found, n.class_has_spec, n.waits,
              is_unbound_wffc_claim,
            )
            refl
      | inr e ↦
          rw
            (
              n.has_spec, e, n.has_class, filled, n.class_found, n.class_has_spec, n.waits,
              is_unbound_wffc_claim,
            )
            refl
    ]

NeedsNode-unselected :
    (ctx : SchedulingContext) (node_name : String) (pvc : PersistentVolumeClaim) (claim : String)
    → NeedsNode ctx node_name pvc claim
    → is_named (selected_node pvc) node_name ≡ false
unfolding selected_node
NeedsNode-unselected ctx node_name pvc claim n =
    elim (Option-cases (get "volume.tugboat.cloud/selected-node" n.meta.annotations)) [
      | inl e ↦ rw (n.has_meta, e, selected_node) refl
      | inr (x, e) ↦
          let other : x ≢ node_name = λ k. n.not_selected (e ∙ ap (λ t. some t) k) in
          rw (n.has_meta, e, selected_node) (ground (arith, eq_iff x node_name, eq_iff x ""))
    ]

pub NeedsNode-claim :
    (ctx : SchedulingContext) (node_name : String) (pvc : PersistentVolumeClaim) (claim : String)
    → NeedsNode ctx node_name pvc claim
    → claim_to_annotate ctx node_name pvc ≡ some claim
unfolding claim_to_annotate
NeedsNode-claim ctx node_name pvc claim n =
    rw
      (
        NeedsNode-waits ctx node_name pvc claim n,
        NeedsNode-unselected ctx node_name pvc claim n,
        n.has_meta,
        n.named,
        claim_to_annotate,
      )
      refl
