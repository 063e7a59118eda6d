-- ===== src/Scheduler/Plugins/Storage/Placement.antt =====
-- What an acceptance of the storage plugins of tugboat-scheduler/src/plugins says of the node.
use tugboat.Base.{
  Bool-cases, ◌≡◌, refl, ◌↔◌, true, some, List, [], ◌∷◌, Memᴰ, arith, Option-cases, inl, inr, ◌>>=◌,
  each_cons, ap, filter_map,
}
use tugboat.Manifests.Labels.{NodeSelector}
use tugboat.Manifests.Meta.{meta_labels}
use tugboat.Manifests.Node.{Node}
use tugboat.Manifests.Ship.{ShipClassSpec, MigrationSpec}
use tugboat.Manifests.Storage.{
  PersistentVolume, PersistentVolumeSpec, PersistentVolumeClaim, PersistentVolumeClaimSpec,
  StorageClassSpec,
}
use tugboat.Scheduler.Context.{
  SchedulingContext, ship_persistent_volume_claims, ship_bound_persistent_volumes,
  is_unbound_wffc_claim, volume_of_claim,
}
use tugboat.Scheduler.Framework.{FilterResult, accept}
use tugboat.Scheduler.Selectors.{topology_selector_terms_match}
use tugboat.Scheduler.Selectors.Meaning.{
  Satisfies, node_selector_matches_iff, contains-mem, mem-contains,
}
use tugboat.Scheduler.Plugins.Storage.{
  pair_of_claim, ship_requires_shared_storage, pvc_has_rwx, pv_is_shared, bound_pvc_pv_pairs,
  shared_loop, storage_fit, class_spec_of, first_rejection, volume_selector, volume_verdict,
  topology_verdict, volume_topology,
}

module _ {ℓ} {A : Type ℓ} (f : A → FilterResult) where
  none_rejected :
      (xs : List A) (next : FilterResult)
      → first_rejection f xs next ≡ accept
      → ((x : A) → Memᴰ x xs → f x ≡ accept) × (next ≡ accept)
  unfolding first_rejection
  none_rejected [] next h = (λ x m. elim m [ ], h)
  none_rejected (x ∷ xs) next h =
      let here : f x ≡ accept = ground arith in
      let (each, k) = none_rejected xs next (ground arith) in
      (each_cons (λ y. f y ≡ accept) xs here each, k)

-- If the filter accepts a node, then its labels satisfy the required node affinity of every volume
-- that a claim of the ship is bound to, and the allowed topologies of the storage class of every
-- claim that waits for its first consumer.
pub volume_topology-Satisfies :
    (ctx : SchedulingContext) (node : Node)
    → volume_topology ctx node ≡ accept
    → ((pv : PersistentVolume) (selector : NodeSelector)
        → Memᴰ pv (ship_bound_persistent_volumes ctx)
        → volume_selector pv ≡ some selector
        → Satisfies selector (meta_labels node.object_meta))
      × ((pvc : PersistentVolumeClaim) (sc_spec : StorageClassSpec)
          → Memᴰ pvc (ship_persistent_volume_claims ctx)
          → is_unbound_wffc_claim ctx pvc ≡ true
          → (do spec ← pvc.spec; class_spec_of ctx spec) ≡ some sc_spec
          → topology_selector_terms_match sc_spec.allowed_topologies (meta_labels node.object_meta)
            ≡ true)
unfolding volume_topology volume_verdict topology_verdict
volume_topology-Satisfies ctx node h =
    let labels = meta_labels node.object_meta in
    let (volumes, rest) =
      none_rejected (volume_verdict labels) (ship_bound_persistent_volumes ctx) _ h in
    let (claims, _) =
      none_rejected (topology_verdict ctx labels) (ship_persistent_volume_claims ctx) accept rest in
    (
      λ pv selector m e.
          let v = volumes pv m in (node_selector_matches_iff selector labels).0 (ground arith),
      λ pvc sc_spec m wffc e. let v = claims pvc m in ground arith,
    )

abbrev SharedPair : PersistentVolumeClaim × PersistentVolume → Type 0
SharedPair pair = (pvc_has_rwx pair.0 ≡ true) × (pv_is_shared pair.1 ≡ true)

shared_iff :
    (pairs : List (PersistentVolumeClaim × PersistentVolume))
    → (shared_loop pairs ≡ accept)
      ↔ ((pair : PersistentVolumeClaim × PersistentVolume) → Memᴰ pair pairs → SharedPair pair)
unfolding shared_loop
shared_iff [] = (λ h pair m. elim m [ ], λ p. refl)
shared_iff ((pvc, pv) ∷ pairs) = (
  λ h.
      let claim : pvc_has_rwx pvc ≡ true = ground arith in
      let volume : pv_is_shared pv ≡ true = ground arith in
      each_cons SharedPair pairs (claim, volume) ((shared_iff pairs).0 (ground arith)),
  λ p.
      let (claim, volume) = p (pvc, pv) (Memᴰ.head refl) in
      rw (claim, volume, shared_loop) ((shared_iff pairs).1 (λ pair m. p pair (Memᴰ.tail m))),
)

-- The claim allows "ReadWriteMany".
abbrev pub IsSharedClaim : PersistentVolumeClaim → Type 0
IsSharedClaim pvc =
    (spec : PersistentVolumeClaimSpec) × (pvc.spec ≡ some spec)
    × Memᴰ "ReadWriteMany" spec.access_modes

-- The volume allows "ReadWriteMany", if it has a spec.
abbrev pub IsSharedVolume : PersistentVolume → Type 0
IsSharedVolume pv =
    (spec : PersistentVolumeSpec) → pv.spec ≡ some spec → Memᴰ "ReadWriteMany" spec.access_modes

shared_claim : (pvc : PersistentVolumeClaim) → (pvc_has_rwx pvc ≡ true) ↔ IsSharedClaim pvc
shared_claim pvc = (to, from)
  where
    to : pvc_has_rwx pvc ≡ true → IsSharedClaim pvc
    to h = elim (Option-cases pvc.spec) [
      | inl e ↦ absurd (let k = rw e at h in cc)
      | inr (spec, e) ↦ (spec, e, contains-mem spec.access_modes "ReadWriteMany" (rw e at h))
    ]

    from : IsSharedClaim pvc → pvc_has_rwx pvc ≡ true
    from (spec, e, m) = rw e (mem-contains spec.access_modes "ReadWriteMany" m)

shared_volume : (pv : PersistentVolume) → (pv_is_shared pv ≡ true) ↔ IsSharedVolume pv
shared_volume pv = (to, from)
  where
    to : pv_is_shared pv ≡ true → IsSharedVolume pv
    to h spec e = contains-mem spec.access_modes "ReadWriteMany" (rw e at h)

    from : IsSharedVolume pv → pv_is_shared pv ≡ true
    from h = elim (Option-cases pv.spec) [
      | inl e ↦ rw e refl
      | inr (spec, e) ↦ rw e (mem-contains spec.access_modes "ReadWriteMany" (h spec e))
    ]

pairs-mem :
    (ctx : SchedulingContext) (claims : List PersistentVolumeClaim) (pvc : PersistentVolumeClaim)
    (pv : PersistentVolume)
    → Memᴰ (pvc, pv) (filter_map (pair_of_claim ctx) claims)
    → Memᴰ pvc claims × (volume_of_claim ctx pvc ≡ some pv)
pairs-mem ctx [] pvc pv m = elim m [ ]
pairs-mem ctx (c ∷ cs) pvc pv m = elim (Option-cases (volume_of_claim ctx c)) [
  | inl e ↦ let (n, f) = pairs-mem ctx cs pvc pv (rw (e, filter_map) at m) in (Memᴰ.tail n, f)
  | inr (v, e) ↦ elim (rw (e, filter_map) at m) [
    | Memᴰ.head k ↦
        let claim : pvc ≡ c = ap (λ x. x.0) k in
        let volume : pv ≡ v = ap (λ x. x.1) k in (Memᴰ.head claim, rw (claim, volume) e)
    | Memᴰ.tail n ↦ let (i, f) = pairs-mem ctx cs pvc pv n in (Memᴰ.tail i, f)
  ]
]

mem-pairs :
    (ctx : SchedulingContext) (claims : List PersistentVolumeClaim) (pvc : PersistentVolumeClaim)
    (pv : PersistentVolume)
    → Memᴰ pvc claims
    → volume_of_claim ctx pvc ≡ some pv
    → Memᴰ (pvc, pv) (filter_map (pair_of_claim ctx) claims)
mem-pairs ctx [] pvc pv m e = elim m [ ]
mem-pairs ctx (c ∷ cs) pvc pv (Memᴰ.head k) e =
    let f : volume_of_claim ctx c ≡ some pv = rw (← k) e in
    rw (f, filter_map) (Memᴰ.head (ap (λ x. (x, pv)) k))
mem-pairs ctx (c ∷ cs) pvc pv (Memᴰ.tail m) e = elim (Option-cases (volume_of_claim ctx c)) [
  | inl f ↦ rw (f, filter_map) (mem-pairs ctx cs pvc pv m e)
  | inr (v, f) ↦ rw (f, filter_map) (Memᴰ.tail (mem-pairs ctx cs pvc pv m e))
]

needs_sharing :
    (ctx : SchedulingContext)
    → ship_requires_shared_storage ctx ≡ true
    → (class_spec : ShipClassSpec) × (migration : MigrationSpec) × (ctx.ship_class.spec
        ≡ some class_spec)
      × (class_spec.migration ≡ some migration)
needs_sharing ctx h = elim (Option-cases ctx.ship_class.spec) [
  | inl e ↦ absurd (let k = rw e at h in cc)
  | inr (class_spec, e) ↦ elim (Option-cases class_spec.migration) [
    | inl f ↦ absurd (let k = rw (e, f) at h in cc)
    | inr (migration, f) ↦ (class_spec, migration, e, f)
  ]
]

-- The filter accepts exactly when, if the ship's class has a migration policy, every claim of the
-- ship that is bound to a volume allows "ReadWriteMany", and so does its volume, if that has a spec;
-- for a class without a migration policy it accepts always.
pub storage_fit_iff :
    (ctx : SchedulingContext) (node : Node)
    → (storage_fit ctx node ≡ accept) ↔ (
        (class_spec : ShipClassSpec) (migration : MigrationSpec)
        → ctx.ship_class.spec ≡ some class_spec
        → class_spec.migration ≡ some migration
        → (pvc : PersistentVolumeClaim) (pv : PersistentVolume)
        → Memᴰ pvc (ship_persistent_volume_claims ctx)
        → volume_of_claim ctx pvc ≡ some pv
        → IsSharedClaim pvc × IsSharedVolume pv)
unfolding storage_fit bound_pvc_pv_pairs
storage_fit_iff ctx node =
    let claims = ship_persistent_volume_claims ctx in
    let pairs = shared_iff (bound_pvc_pv_pairs ctx) in
    (
      λ h class_spec migration e f pvc pv m g.
          let needs : ship_requires_shared_storage ctx ≡ true = rw (e, f) refl in
          let (claim, volume) =
            pairs.0 (rw (needs, storage_fit) at h) (pvc, pv) (mem-pairs ctx claims pvc pv m g) in
          ((shared_claim pvc).0 claim, (shared_volume pv).0 volume),
      λ p. elim (Bool-cases (ship_requires_shared_storage ctx)) [
        | inr e ↦ rw (e, storage_fit) refl
        | inl e ↦
            let (class_spec, migration, f, g) = needs_sharing ctx e in
            rw (e, storage_fit)
              (pairs.1 (λ pair m.
                let (n, k) = pairs-mem ctx claims pair.0 pair.1 m in
                let (claim, volume) = p class_spec migration f g pair.0 pair.1 n k in
                ((shared_claim pair.0).1 claim, (shared_volume pair.1).1 volume)))
      ],
    )
