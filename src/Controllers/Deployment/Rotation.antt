-- ===== src/Controllers/Deployment/Rotation.antt =====
-- A step of a rolling update stays within the limits of the strategy.
use tugboat.Base.{
  ◌≡◌, refl, sym, subst, ◌∙◌, ◌⊎◌, inl, inr, String, true, false, ◌&&◌, none, some, List, [], ◌∷◌,
  arith, Bool-cases, unwrap_or, if◌then◌else◌,
}
use tugboat.Base.Int.{
  ℤ, pos, ltb_ℤ, eq_ℤ, eq_ℤ_refl, min_ℤ, max_ℤ, ◌+ℤ◌, ◌-ℤ◌, ◌≤ℤ◌, ◌<ℤ◌, int_laws,
}
use tugboat.Manifests.Workload.{ReplicaSet, Deployment}
use tugboat.Controllers.Deployment.Exact.{
  IsInRange, total_of, exact_removal_loop, exact_targets,
  next_rolling_update_rotation_targets-exact,
}
use tugboat.Controllers.Deployment.{
  rs_name, replicaset_spec_replicas, replicaset_status_replicas, replicaset_ready_replicas,
  rolling_update_limits, desired_replicas, decrement_of, RotationTargets,
  next_rolling_update_rotation_targets,
}

-- The targets shrink some of the replica sets, by this many replicas together, none below 0.
pub data Shrinks : List ReplicaSet → List (String × ℤ) → ℤ → Type 0 where
  rest_kept : (olds : List ReplicaSet) → Shrinks olds [] (pos 0)
  one_kept :
      (rs : ReplicaSet) (olds : List ReplicaSet) (targets : List (String × ℤ)) (removed : ℤ)
      → Shrinks olds targets removed
      → Shrinks (rs ∷ olds) targets removed
  one_shrunk :
      (rs : ReplicaSet) (olds : List ReplicaSet) (targets : List (String × ℤ)) (target removed : ℤ)
      → pos 0 ≤ℤ target
      → target <ℤ replicaset_spec_replicas rs
      → Shrinks olds targets removed
      → Shrinks
          (rs ∷ olds)
          ((unwrap_or (rs_name rs) "", target) ∷ targets)
          (removed +ℤ (replicaset_spec_replicas rs -ℤ target))

Bounded : List ReplicaSet → List (String × ℤ) → ℤ → Type 0
Bounded olds targets most =
    (removed : ℤ) × Shrinks olds targets removed
    × (pos 0 ≤ℤ removed)
    × (removed ≤ℤ max_ℤ most (pos 0))

decrement_bounds :
    (current can : ℤ)
    → pos 0 <ℤ can
    → let d = decrement_of current can in (pos 0 ≤ℤ d) × (d ≤ℤ can) × (d ≤ℤ max_ℤ current (pos 0))
decrement_bounds current can h = ground arith

taken_positive : (current d : ℤ) → pos 0 ≤ℤ d → eq_ℤ (current -ℤ d) current ≡ false → pos 0 <ℤ d
taken_positive current d h e = elim (Bool-cases (ltb_ℤ (pos 0) d)) [
  | inl k ↦ ground arith
  | inr k ↦
      let none_taken : d ≤ℤ pos 0 = ground arith in
      let same : current -ℤ d ≡ current = omega int_laws in
      let both : true ≡ false = sym (eq_ℤ_refl current) ∙ rw same at e in absurd (cc)
]

-- One replica set gives up d replicas, and the others what is left to take away.
one_more_set :
    (rs : ReplicaSet) (more : List ReplicaSet) (targets : List (String × ℤ)) (can d : ℤ)
    → (pos 0 ≤ℤ d) × (d ≤ℤ can) × (d ≤ℤ max_ℤ (replicaset_spec_replicas rs) (pos 0))
    → pos 0 <ℤ can
    → Bounded more targets (can -ℤ d)
    → let current = replicaset_spec_replicas rs in
      let target = current -ℤ d in
      Bounded
        (rs ∷ more)
        (if eq_ℤ target current then targets else (unwrap_or (rs_name rs) "", target) ∷ targets)
        can
unfolding Bounded
one_more_set rs more targets can d (low, high, within) h (removed, shrinks, positive, bounded) =
    let current = replicaset_spec_replicas rs in
    let target = current -ℤ d in
    let taken : removed ≤ℤ max_ℤ (can -ℤ d) (pos 0) = bounded in
    let left : pos 0 ≤ℤ can -ℤ d = omega int_laws in
    let most : removed ≤ℤ can -ℤ d = ground arith in
    elim (Bool-cases (eq_ℤ target current)) [
      | inl e ↦
          let enough : removed ≤ℤ can = omega int_laws in
          rw e (removed, one_kept rs more targets removed shrinks, positive, ground arith)
      | inr e ↦
          let some_taken : pos 0 <ℤ d = taken_positive current d low e in
          let had : d ≤ℤ current = ground arith in
          let not_below : pos 0 ≤ℤ target = omega int_laws in
          let smaller : target <ℤ current = omega int_laws in
          let enough : removed +ℤ (current -ℤ target) ≤ℤ can = omega int_laws in
          rw e (
            removed +ℤ (current -ℤ target),
            one_shrunk rs more targets target removed not_below smaller shrinks,
            omega int_laws,
            ground arith,
          )
    ]

exact_removal_loop-Bounded :
    (can_remove : ℤ) (olds : List ReplicaSet)
    → Bounded olds (exact_removal_loop can_remove olds) can_remove
unfolding exact_removal_loop Bounded
exact_removal_loop-Bounded can_remove [] = (pos 0, rest_kept [], omega arith, ground arith)
exact_removal_loop-Bounded can_remove (rs ∷ more) = elim (Bool-cases (ltb_ℤ (pos 0) can_remove)) [
  | inr e ↦ rw (e, exact_removal_loop) (pos 0, rest_kept _, omega arith, ground arith)
  | inl e ↦
      let d = decrement_of (replicaset_spec_replicas rs) can_remove in
      rw (e, exact_removal_loop)
        (one_more_set rs more (exact_removal_loop (can_remove -ℤ d) more) can_remove d
          (decrement_bounds (replicaset_spec_replicas rs) can_remove (ground arith)) (ground arith)
          (exact_removal_loop-Bounded (can_remove -ℤ d) more))
]

-- A step that the limits of the strategy allow, as far as the replicas are counted in the status:
-- new replicas only while there are fewer than desired, with all replicas together at most
-- max_surge above the desired number; old ones are only removed when none are added, and then
-- desired less max_unavailable ready ones remain, even if all that are removed are ready.
pub record IsWithinLimits (dep : Deployment) (active_rs : ReplicaSet) (olds : List ReplicaSet)
    (targets : RotationTargets) : Type 0 where
  pub adds :
      (targets.0 ≡ none)
      ⊎ ((target : ℤ) × (targets.0 ≡ some target)
          × (replicaset_spec_replicas active_rs <ℤ target)
          × (target ≤ℤ desired_replicas dep)
          × (total_of replicaset_status_replicas olds
                +ℤ replicaset_status_replicas active_rs
                +ℤ (target -ℤ replicaset_spec_replicas active_rs)
              ≤ℤ desired_replicas dep +ℤ (rolling_update_limits dep).0)
          × (targets.1 ≡ []))
  pub removes :
      (removed : ℤ) × Shrinks olds targets.1 removed
      × ((removed ≡ pos 0)
          ⊎ (desired_replicas dep -ℤ (rolling_update_limits dep).1
              ≤ℤ total_of replicaset_ready_replicas olds
                +ℤ replicaset_ready_replicas active_rs
                -ℤ removed))

exact_removal_loop_none : (olds : List ReplicaSet) → exact_removal_loop (pos 0) olds ≡ []
unfolding exact_removal_loop
exact_removal_loop_none [] = refl
exact_removal_loop_none (rs ∷ more) = refl

under_max : (r a : ℤ) → pos 0 <ℤ r → r ≤ℤ max_ℤ a (pos 0) → r ≤ℤ a
under_max r a h bound = ground arith

le_max : (a b : ℤ) → a ≤ℤ max_ℤ a b
le_max a b = ground arith

min_cases : (a b n : ℤ) → n <ℤ a → n <ℤ b → (n <ℤ min_ℤ a b) × (min_ℤ a b ≤ℤ a) × (min_ℤ a b ≤ℤ b)
min_cases a b n h k = ground arith

remaining :
    (removed available desired unavailable : ℤ)
    → pos 0 ≤ℤ removed
    → removed ≤ℤ max_ℤ (max_ℤ (available -ℤ max_ℤ (desired -ℤ unavailable) (pos 0)) (pos 0)) (pos 0)
    → (removed ≡ pos 0) ⊎ (desired -ℤ unavailable ≤ℤ available -ℤ removed)
remaining removed available desired unavailable h bound =
    let least = max_ℤ (desired -ℤ unavailable) (pos 0) in
    elim (Bool-cases (ltb_ℤ (pos 0) removed)) [
      | inl k ↦
          let some_removed : pos 0 <ℤ removed = ground arith in
          let once = under_max removed (max_ℤ (available -ℤ least) (pos 0)) some_removed bound in
          let within : removed ≤ℤ available -ℤ least =
            under_max removed (available -ℤ least) some_removed once in
          let above : desired -ℤ unavailable ≤ℤ least = le_max (desired -ℤ unavailable) (pos 0) in
          let left : desired -ℤ unavailable ≤ℤ available -ℤ removed = omega int_laws in inr left
      | inr k ↦
          let none_removed : removed ≤ℤ pos 0 = ground arith in
          let zero : removed ≡ pos 0 = omega int_laws in inl zero
    ]

-- The number that a step scales the new replica set to.
added :
    (new desired surge total target : ℤ)
    → (ltb_ℤ (pos 0) (desired +ℤ surge -ℤ total) && ltb_ℤ new desired) ≡ true
    → target ≡ min_ℤ (new +ℤ (desired +ℤ surge -ℤ total)) desired
    → (new <ℤ target) × (target ≤ℤ desired) × (total +ℤ (target -ℤ new) ≤ℤ desired +ℤ surge)
added new desired surge total target h e =
    let can = desired +ℤ surge -ℤ total in
    let room : pos 0 <ℤ can = ground arith in
    let fewer : new <ℤ desired = ground arith in
    let larger : new <ℤ new +ℤ can = omega int_laws in
    let (a, b, c) = min_cases (new +ℤ can) desired new larger fewer in
    let at_most : target ≤ℤ new +ℤ can = rw e b in (rw e a, rw e c, omega int_laws)

exact_targets-IsWithinLimits :
    (dep : Deployment) (active_rs : ReplicaSet) (olds : List ReplicaSet)
    → IsWithinLimits dep active_rs olds (exact_targets dep active_rs olds)
unfolding exact_targets Bounded
exact_targets-IsWithinLimits dep active_rs olds =
    let desired = desired_replicas dep in
    let surge = (rolling_update_limits dep).0 in
    let unavailable = (rolling_update_limits dep).1 in
    let total = total_of replicaset_status_replicas olds +ℤ replicaset_status_replicas active_rs in
    let new = replicaset_spec_replicas active_rs in
    let available =
      total_of replicaset_ready_replicas olds +ℤ replicaset_ready_replicas active_rs in
    elim (Bool-cases (ltb_ℤ (pos 0) (desired +ℤ surge -ℤ total) && ltb_ℤ new desired)) [
      | inl e ↦
          rw (e, exact_removal_loop_none olds, exact_targets)
            (record {
              adds =
                  let target = min_ℤ (new +ℤ (desired +ℤ surge -ℤ total)) desired in
                  let (a, b, c) = added new desired surge total target e refl in
                  inr (target, refl, a, b, c, refl);
              removes = (pos 0, rest_kept olds, inl refl);
            })
      | inr e ↦
          let most = max_ℤ (available -ℤ max_ℤ (desired -ℤ unavailable) (pos 0)) (pos 0) in
          let (removed, shrinks, positive, bound) = exact_removal_loop-Bounded most olds in
          rw (e, exact_targets)
            (record {
              adds = inl refl;
              removes = (
                removed,
                shrinks,
                remaining removed available desired unavailable positive bound,
              );
            })
    ]

-- The targets of a step of a rolling update are within the limits of the deployment's strategy: new
-- replicas only up to the desired number and max_surge above it in all, by the counts of the
-- statuses; old ones are removed only when none are added, and leave the ready replicas at the
-- desired number less max_unavailable, if any are removed. The sums are exact ones, for counts that
-- are not negative and whose sums, like twice the desired number with max_surge, i32 can hold.
pub next_rolling_update_rotation_targets-IsWithinLimits :
    (dep : Deployment) (active_rs : ReplicaSet) (olds : List ReplicaSet)
    → IsInRange dep active_rs olds
    → IsWithinLimits dep active_rs olds (next_rolling_update_rotation_targets dep active_rs olds)
next_rolling_update_rotation_targets-IsWithinLimits dep active_rs olds h =
    subst (IsWithinLimits dep active_rs olds)
      (sym (next_rolling_update_rotation_targets-exact dep active_rs olds h))
      (exact_targets-IsWithinLimits dep active_rs olds)
