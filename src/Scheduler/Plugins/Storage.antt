-- ===== src/Scheduler/Plugins/Storage.antt =====
-- tugboat-scheduler/src/plugins: storage_fit.rs, storage_binding_ready.rs and volume_topology.rs.
pub mod Placement
use tugboat.Base.{
  String, Bool, true, false, not, ◌&&◌, ◌||◌, Option, none, some, List, [], ◌∷◌, ◌>>=◌, any,
  filter_map, is_some, is_some_and, keep_if, unwrap_or, ◌==◌, if◌then◌else◌,
}
use tugboat.Base.Dict.{Dict}
use tugboat.Manifests.Labels.{NodeSelector}
use tugboat.Manifests.Meta.{meta_name, meta_labels, is_named}
use tugboat.Manifests.Node.{Node}
use tugboat.Manifests.Ship.{ShipVolume}
use tugboat.Manifests.Storage.{
  PersistentVolume, PersistentVolumeClaim, PersistentVolumeClaimSpec, StorageClass,
  StorageClassSpec,
}
use tugboat.Scheduler.Context.{
  SchedulingContext, ship_persistent_volume_claims, ship_bound_persistent_volumes, volume_of_claim,
  find_storage_class, is_unbound_wffc_claim, not_empty, waits_for_consumer,
}
use tugboat.Scheduler.Cycle.{selected_node}
use tugboat.Scheduler.Selectors.{
  contains, node_selector_matches, first_unsatisfied_node_selector_key,
  topology_selector_terms_match,
}
use tugboat.Scheduler.Framework.{
  FilterPlugin, FilterResult, accept, reject, claim_not_shared, volume_not_shared,
  claim_selected_elsewhere, allowed_topologies_mismatch, volume_affinity_not_satisfied,
}
use mathlib.Core.Option

abbrev pub pvc_name : PersistentVolumeClaim → String
pvc_name pvc = unwrap_or (meta_name pvc.object_meta) "<unknown>"

abbrev pub pv_name : PersistentVolume → String
pv_name pv = unwrap_or (meta_name pv.object_meta) "<unknown>"

abbrev pub ship_requires_shared_storage : SchedulingContext → Bool
ship_requires_shared_storage ctx = is_some (do spec ← ctx.ship_class.spec; spec.migration)

abbrev pub pvc_has_rwx : PersistentVolumeClaim → Bool
pvc_has_rwx pvc =
    unwrap_or (Option.map (λ spec. contains spec.access_modes "ReadWriteMany") pvc.spec) false

-- A claim of the ship with the volume that it is bound to.
abbrev pair_of_claim :
    SchedulingContext → PersistentVolumeClaim → Option (PersistentVolumeClaim × PersistentVolume)
pair_of_claim ctx pvc = do pv ← volume_of_claim ctx pvc; some (pvc, pv)

unfoldable pub bound_pvc_pv_pairs :
    SchedulingContext → List (PersistentVolumeClaim × PersistentVolume)
bound_pvc_pv_pairs ctx = filter_map (pair_of_claim ctx) (ship_persistent_volume_claims ctx)

-- A volume without a spec is passed over.
abbrev pub pv_is_shared : PersistentVolume → Bool
pv_is_shared pv =
    unwrap_or (Option.map (λ spec. contains spec.access_modes "ReadWriteMany") pv.spec) true

shared_loop : List (PersistentVolumeClaim × PersistentVolume) → FilterResult
shared_loop [] = accept
shared_loop ((pvc, pv) ∷ pairs) =
    let rest = shared_loop pairs in
    if not (pvc_has_rwx pvc)
    then reject (claim_not_shared (pvc_name pvc))
    else if not (pv_is_shared pv)
    then reject (volume_not_shared (pv_name pv))
    else rest

unfoldable pub storage_fit : SchedulingContext → Node → FilterResult
unfolding shared_loop
storage_fit ctx node =
    if not (ship_requires_shared_storage ctx) then accept else shared_loop (bound_pvc_pv_pairs ctx)

abbrev pub storage_class_of : SchedulingContext → PersistentVolumeClaimSpec → Option StorageClass
storage_class_of ctx spec = do
  name ← keep_if not_empty spec.storage_class_name
  find_storage_class ctx name

abbrev pub class_spec_of : SchedulingContext → PersistentVolumeClaimSpec → Option StorageClassSpec
class_spec_of ctx spec = do sc ← storage_class_of ctx spec; sc.spec

-- What one claim says of the node: `none` is `continue`.
unbound_claim_verdict :
    SchedulingContext
    → String
    → Dict String
    → PersistentVolumeClaim
    → PersistentVolumeClaimSpec
    → FilterResult
unbound_claim_verdict ctx node_name labels pvc spec =
    if is_some_and spec.volume_name not_empty
    then accept
    else if is_some_and (selected_node pvc) (λ n. not (n == node_name))
    then reject (claim_selected_elsewhere (pvc_name pvc) (unwrap_or (selected_node pvc) ""))
    else elim (class_spec_of ctx spec) [
      | none ↦ accept
      | some sc_spec ↦
          if not (is_named sc_spec.volume_binding_mode "WaitForFirstConsumer")
          then accept
          else if not (topology_selector_terms_match sc_spec.allowed_topologies labels)
          then reject
              (allowed_topologies_mismatch (pvc_name pvc) (unwrap_or spec.storage_class_name ""))
          else accept
    ]

abbrev claim_verdict :
    SchedulingContext → String → Dict String → PersistentVolumeClaim → FilterResult
claim_verdict ctx node_name labels pvc = elim pvc.spec [
  | none ↦ accept
  | some spec ↦ unbound_claim_verdict ctx node_name labels pvc spec
]

-- A loop that ends with the first rejection.
pub first_rejection {ℓ} : {A : Type ℓ} → (A → FilterResult) → List A → FilterResult → FilterResult
first_rejection f [] next = next
first_rejection f (x ∷ xs) next =
    let rest = first_rejection f xs next in
    elim (f x) [ accept ↦ rest | reject reason ↦ reject reason ]

unfoldable pub storage_binding_ready : SchedulingContext → Node → FilterResult
unfolding first_rejection unbound_claim_verdict
storage_binding_ready ctx node =
    first_rejection
      (claim_verdict ctx (unwrap_or (meta_name node.object_meta) "") (meta_labels node.object_meta))
      (ship_persistent_volume_claims ctx) accept

abbrev pub volume_selector : PersistentVolume → Option NodeSelector
volume_selector pv = do spec ← pv.spec; affinity ← spec.node_affinity; affinity.required

volume_verdict : Dict String → PersistentVolume → FilterResult
volume_verdict labels pv = elim (volume_selector pv) [
  | none ↦ accept
  | some selector ↦
      if node_selector_matches selector labels
      then accept
      else reject (
          volume_affinity_not_satisfied (pv_name pv)
            (unwrap_or (first_unsatisfied_node_selector_key selector labels) "<unknown>"))
]

topology_verdict : SchedulingContext → Dict String → PersistentVolumeClaim → FilterResult
topology_verdict ctx labels pvc =
    if not (is_unbound_wffc_claim ctx pvc)
    then accept
    else elim (do spec ← pvc.spec; class_spec_of ctx spec) [
      | none ↦ accept
      | some sc_spec ↦
          if not (topology_selector_terms_match sc_spec.allowed_topologies labels)
          then reject (
              allowed_topologies_mismatch (pvc_name pvc)
                (unwrap_or (do spec ← pvc.spec; spec.storage_class_name) ""))
          else accept
    ]

unfoldable pub volume_topology : SchedulingContext → Node → FilterResult
unfolding first_rejection volume_verdict topology_verdict
volume_topology ctx node =
    let labels = meta_labels node.object_meta in
    first_rejection (volume_verdict labels) (ship_bound_persistent_volumes ctx)
      (first_rejection (topology_verdict ctx labels) (ship_persistent_volume_claims ctx) accept)

abbrev pub storage_fit_filter : FilterPlugin
storage_fit_filter = record { name = "StorageFit"; filter = storage_fit }

abbrev pub storage_binding_ready_filter : FilterPlugin
storage_binding_ready_filter = record {
  name = "StorageBindingReady";
  filter = storage_binding_ready;
}

abbrev pub volume_topology_filter : FilterPlugin
volume_topology_filter = record { name = "VolumeTopology"; filter = volume_topology }
