-- ===== src/Controllers/Deployment/Exact.antt =====
-- The step of a rolling update in exact integers, and when i32 values are as good.
use tugboat.Base.{
  ◌-◌, ◌^◌, ◌≡◌, refl, inl, inr, String, true, not, ◌&&◌, ◌||◌, none, some, List, [], ◌∷◌, map,
  Memᴰ, arith, Bool-cases, is_empty, unwrap_or, if◌then◌else◌,
}
use tugboat.Base.Int.{
  ℤ, pos, negsuc, ltb_ℤ, eq_ℤ, min_ℤ, max_ℤ, ◌+ℤ◌, ◌-ℤ◌, ◌≤ℤ◌, ◌<ℤ◌, InI32, wrap_i32-eq, int_laws,
}
use tugboat.Manifests.Workload.{ReplicaSet, Deployment}
use tugboat.Controllers.Deployment.{
  rs_name, replicaset_spec_replicas, replicaset_status_replicas, replicaset_ready_replicas, sum_i32,
  sum_status_replicas, sum_ready_replicas, rolling_update_limits, desired_replicas, removal_loop,
  decrement_of, RotationTargets, next_rolling_update_rotation_targets,
}

-- The exact sum of what is counted of each replica set.
abbrev pub total_of : (ReplicaSet → ℤ) → List ReplicaSet → ℤ
total_of count [] = pos 0
total_of count (rs ∷ more) = count rs +ℤ total_of count more

abbrev pub i32_max : ℤ
i32_max = pos (2 ^ 31 - 1)

-- What the step computes with is in the range of i32: the counts are not negative, and their sums,
-- and twice the desired number with max_surge, are at most the greatest i32.
pub record IsInRange (dep : Deployment) (active_rs : ReplicaSet) (olds : List ReplicaSet)
    : Type 0 where
  pub wanted :
      desired_replicas dep +ℤ desired_replicas dep +ℤ (rolling_update_limits dep).0 ≤ℤ i32_max
  pub unavailable : (rolling_update_limits dep).1 ≤ℤ i32_max
  pub asked : InI32 (replicaset_spec_replicas active_rs)
  pub old_asked : (rs : ReplicaSet) → Memᴰ rs olds → InI32 (replicaset_spec_replicas rs)
  pub status : pos 0 ≤ℤ replicaset_status_replicas active_rs
  pub ready : pos 0 ≤ℤ replicaset_ready_replicas active_rs
  pub old_status : (rs : ReplicaSet) → Memᴰ rs olds → pos 0 ≤ℤ replicaset_status_replicas rs
  pub old_ready : (rs : ReplicaSet) → Memᴰ rs olds → pos 0 ≤ℤ replicaset_ready_replicas rs
  pub counted :
      total_of replicaset_status_replicas olds +ℤ replicaset_status_replicas active_rs ≤ℤ i32_max
  pub counted_ready :
      total_of replicaset_ready_replicas olds +ℤ replicaset_ready_replicas active_rs ≤ℤ i32_max

unfoldable pub exact_removal_loop : ℤ → List ReplicaSet → List (String × ℤ)
exact_removal_loop can_remove [] = []
exact_removal_loop can_remove (rs ∷ more) =
    let current = replicaset_spec_replicas rs in
    let decrement = decrement_of current can_remove in
    let target = current -ℤ decrement in
    let rest = exact_removal_loop (can_remove -ℤ decrement) more in
    if not (ltb_ℤ (pos 0) can_remove)
    then []
    else if eq_ℤ target current
    then rest
    else (unwrap_or (rs_name rs) "", target) ∷ rest

unfoldable pub exact_targets : Deployment → ReplicaSet → List ReplicaSet → RotationTargets
unfolding exact_removal_loop
exact_targets dep active_rs olds =
    let desired = desired_replicas dep in
    let (max_surge, max_unavailable) = rolling_update_limits dep in
    let old_total = total_of replicaset_status_replicas olds in
    let new_spec = replicaset_spec_replicas active_rs in
    let total = old_total +ℤ replicaset_status_replicas active_rs in
    let can_add = desired +ℤ max_surge -ℤ total in
    let grows = ltb_ℤ (pos 0) can_add && ltb_ℤ new_spec desired in
    let target_new_spec = if grows then some (min_ℤ (new_spec +ℤ can_add) desired) else none in
    let min_available = max_ℤ (desired -ℤ max_unavailable) (pos 0) in
    let available =
      total_of replicaset_ready_replicas olds +ℤ replicaset_ready_replicas active_rs in
    let can_remove = if grows then pos 0 else max_ℤ (available -ℤ min_available) (pos 0) in
    let old_targets = exact_removal_loop can_remove olds in
    let progressed = grows || not (is_empty old_targets) in
    let rollout_complete =
      eq_ℤ old_total (pos 0)
      && not (ltb_ℤ new_spec desired)
      && not (ltb_ℤ (replicaset_ready_replicas active_rs) desired) in
    (target_new_spec, old_targets, progressed || not rollout_complete)

-- Sums of counts that are not negative do not wrap on the way when the whole does not.
sum_i32-eq :
    (count : ReplicaSet → ℤ) (olds : List ReplicaSet)
    → ((rs : ReplicaSet) → Memᴰ rs olds → pos 0 ≤ℤ count rs)
    → total_of count olds ≤ℤ i32_max
    → (sum_i32 (map count olds) ≡ total_of count olds) × (pos 0 ≤ℤ total_of count olds)
sum_i32-eq count [] h bound = (refl, omega arith)
sum_i32-eq count (rs ∷ more) h bound =
    let here = h rs (Memᴰ.head refl) in
    let rest : total_of count more ≤ℤ i32_max = omega int_laws in
    let (same, positive) = sum_i32-eq count more (λ r m. h r (Memᴰ.tail m)) rest in
    (
      rw same (wrap_i32-eq (count rs +ℤ total_of count more) (omega int_laws, omega int_laws)),
      omega int_laws,
    )

-- What is taken away leaves values in the range.
decrement_range :
    (current can : ℤ)
    → InI32 current
    → can ≤ℤ i32_max
    → let d = decrement_of current can in
      pos 0 <ℤ can → InI32 (current -ℤ d) × (can -ℤ d ≤ℤ i32_max) × InI32 (can -ℤ d)
decrement_range current can h bound room =
    let d = decrement_of current can in
    let low : pos 0 ≤ℤ d = ground arith in
    let high : d ≤ℤ can = ground arith in
    let within : d ≤ℤ max_ℤ current (pos 0) = ground arith in
    let left : negsuc (2 ^ 31 - 1) ≤ℤ current -ℤ d = elim (Bool-cases (ltb_ℤ (pos 0) current)) [
      | inl e ↦ let at_most : d ≤ℤ current = ground arith in omega int_laws
      | inr e ↦ let zero : d ≡ pos 0 = rw e refl in rw zero (omega int_laws)
    ] in
    ((left, omega int_laws), omega int_laws, (omega int_laws, omega int_laws))

removal_loop-exact :
    (can_remove : ℤ) (olds : List ReplicaSet)
    → can_remove ≤ℤ i32_max
    → ((rs : ReplicaSet) → Memᴰ rs olds → InI32 (replicaset_spec_replicas rs))
    → removal_loop can_remove olds ≡ exact_removal_loop can_remove olds
unfolding removal_loop exact_removal_loop
removal_loop-exact can_remove [] bound h = refl
removal_loop-exact can_remove (rs ∷ more) bound h = elim (Bool-cases (ltb_ℤ (pos 0) can_remove)) [
  | inr e ↦ rw (e, removal_loop, exact_removal_loop) refl
  | inl e ↦
      let d = decrement_of (replicaset_spec_replicas rs) can_remove in
      let (a, b, c) =
        decrement_range (replicaset_spec_replicas rs) can_remove (h rs (Memᴰ.head refl)) bound
          (ground arith) in
      let rest = removal_loop-exact (can_remove -ℤ d) more b (λ r m. h r (Memᴰ.tail m)) in
      rw
        (
          wrap_i32-eq (replicaset_spec_replicas rs -ℤ d) a,
          wrap_i32-eq (can_remove -ℤ d) c,
          rest,
          removal_loop,
          exact_removal_loop,
        )
        refl
]

part_of : (a b : ℤ) → pos 0 ≤ℤ b → a +ℤ b ≤ℤ i32_max → a ≤ℤ i32_max
part_of a b h k = omega int_laws

sum_range : (a b : ℤ) → pos 0 ≤ℤ a → pos 0 ≤ℤ b → a +ℤ b ≤ℤ i32_max → InI32 (a +ℤ b)
sum_range a b h k l = (omega int_laws, omega int_laws)

plus_low : (a b : ℤ) → pos 0 ≤ℤ a → pos 0 ≤ℤ b → pos 0 ≤ℤ a +ℤ b
plus_low a b h k = omega int_laws

max_bounds : (a : ℤ) → a ≤ℤ i32_max → (pos 0 ≤ℤ max_ℤ a (pos 0)) × (max_ℤ a (pos 0) ≤ℤ i32_max)
max_bounds a h = (ground arith, ground arith)

step_ranges :
    (desired surge unavailable total available : ℤ)
    → pos 0 ≤ℤ desired
    → pos 0 ≤ℤ surge
    → pos 0 ≤ℤ unavailable
    → unavailable ≤ℤ i32_max
    → desired +ℤ desired +ℤ surge ≤ℤ i32_max
    → pos 0 ≤ℤ total
    → total ≤ℤ i32_max
    → pos 0 ≤ℤ available
    → available ≤ℤ i32_max
    → let least = max_ℤ (desired -ℤ unavailable) (pos 0) in
      InI32 (desired +ℤ surge)
      × InI32 (desired +ℤ surge -ℤ total)
      × InI32 (desired -ℤ unavailable)
      × InI32 (available -ℤ least)
      × (max_ℤ (available -ℤ least) (pos 0) ≤ℤ i32_max)
step_ranges desired surge unavailable total available a b c d wanted e f g k =
    let below : desired -ℤ unavailable ≤ℤ i32_max = omega int_laws in
    let (low, high) = max_bounds (desired -ℤ unavailable) below in
    let rest : available -ℤ max_ℤ (desired -ℤ unavailable) (pos 0) ≤ℤ i32_max = omega int_laws in
    (
      (omega int_laws, omega int_laws),
      (omega int_laws, omega int_laws),
      (omega int_laws, below),
      (omega int_laws, rest),
      (max_bounds _ rest).1,
    )

grown_range :
    (new desired surge total : ℤ)
    → InI32 new
    → desired +ℤ desired +ℤ surge ≤ℤ i32_max
    → pos 0 ≤ℤ desired
    → pos 0 ≤ℤ surge
    → pos 0 ≤ℤ total
    → (ltb_ℤ (pos 0) (desired +ℤ surge -ℤ total) && ltb_ℤ new desired) ≡ true
    → InI32 (new +ℤ (desired +ℤ surge -ℤ total))
grown_range new desired surge total asked wanted a b c e =
    let room : pos 0 <ℤ desired +ℤ surge -ℤ total = ground arith in
    let fewer : new <ℤ desired = ground arith in (omega int_laws, omega int_laws)

pub not_negative :
    (dep : Deployment)
    → (pos 0 ≤ℤ desired_replicas dep)
      × (pos 0 ≤ℤ (rolling_update_limits dep).0)
      × (pos 0 ≤ℤ (rolling_update_limits dep).1)
unfolding desired_replicas rolling_update_limits
not_negative dep = (ground arith, ground arith, ground arith)

-- The step of the code is the exact one.
pub next_rolling_update_rotation_targets-exact :
    (dep : Deployment) (active_rs : ReplicaSet) (olds : List ReplicaSet)
    → IsInRange dep active_rs olds
    → next_rolling_update_rotation_targets dep active_rs olds ≡ exact_targets dep active_rs olds
unfolding next_rolling_update_rotation_targets exact_targets sum_status_replicas sum_ready_replicas
next_rolling_update_rotation_targets-exact dep active_rs olds h =
    let desired = desired_replicas dep in
    let surge = (rolling_update_limits dep).0 in
    let unavailable = (rolling_update_limits dep).1 in
    let new = replicaset_spec_replicas active_rs in
    let old_total = total_of replicaset_status_replicas olds in
    let old_ready = total_of replicaset_ready_replicas olds in
    let status = replicaset_status_replicas active_rs in
    let ready = replicaset_ready_replicas active_rs in
    let (low, surge_low, unavailable_low) = not_negative dep in
    let (old_same, old_low) =
      sum_i32-eq replicaset_status_replicas olds h.old_status (part_of _ _ h.status h.counted) in
    let (ready_same, ready_low) =
      sum_i32-eq replicaset_ready_replicas olds h.old_ready (part_of _ _ h.ready h.counted_ready) in
    let total = old_total +ℤ status in
    let available = old_ready +ℤ ready in
    let can = desired +ℤ surge -ℤ total in
    let least = max_ℤ (desired -ℤ unavailable) (pos 0) in
    let total_low : pos 0 ≤ℤ total = plus_low _ _ old_low h.status in
    let available_low : pos 0 ≤ℤ available = plus_low _ _ ready_low h.ready in
    let ranges =
      step_ranges desired surge unavailable total available low surge_low unavailable_low
        h.unavailable h.wanted total_low h.counted available_low h.counted_ready in
    let e1 = wrap_i32-eq total (sum_range _ _ old_low h.status h.counted) in
    let e2 = wrap_i32-eq available (sum_range _ _ ready_low h.ready h.counted_ready) in
    let e3 = wrap_i32-eq (desired +ℤ surge) ranges.0 in
    let e4 = wrap_i32-eq can ranges.1 in
    let e5 = wrap_i32-eq (desired -ℤ unavailable) ranges.2 in
    let e6 = wrap_i32-eq (available -ℤ least) ranges.3 in
    elim (Bool-cases (ltb_ℤ (pos 0) can && ltb_ℤ new desired)) [
      | inl e ↦
          let e7 =
            wrap_i32-eq (new +ℤ can)
              (grown_range new desired surge total h.asked h.wanted low surge_low total_low e) in
          let none_same = removal_loop-exact (pos 0) olds (omega arith) h.old_asked in
          rw
            (
              old_same, ready_same, e1, e2, e3, e4, e5, e6, e, e7,
              next_rolling_update_rotation_targets, exact_targets,
            )
            (rw none_same refl)
      | inr e ↦
          let same =
            removal_loop-exact (max_ℤ (available -ℤ least) (pos 0)) olds ranges.4 h.old_asked in
          rw
            (
              old_same, ready_same, e1, e2, e3, e4, e5, e6, e, same,
              next_rolling_update_rotation_targets, exact_targets,
            )
            refl
    ]
