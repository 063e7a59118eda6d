-- ===== src/Controllers/Deployment/Progress.antt =====
-- A rolling update does not stand still while all replicas are ready.
use tugboat.Base.{
  ◌≡◌, refl, sym, subst, ap, ◌⊎◌, inl, inr, String, true, false, ◌&&◌, some, List, [], ◌∷◌, Memᴰ,
  arith, Bool-cases, unwrap_or,
}
use tugboat.Base.Int.{
  ℤ, pos, pos_part, neg_part, ltb_ℤ, eq_ℤ, eq_ℤ_iff, eq_ℤ_refl, min_ℤ, max_ℤ, ◌+ℤ◌, ◌-ℤ◌, ◌≤ℤ◌,
  ◌<ℤ◌, int_laws,
}
use tugboat.Manifests.Workload.{ReplicaSet, Deployment}
use tugboat.Controllers.Deployment.Exact.{
  not_negative, IsInRange, total_of, exact_removal_loop, exact_targets,
  next_rolling_update_rotation_targets-exact,
}
use tugboat.Controllers.Deployment.{
  rs_name, replicaset_spec_replicas, replicaset_status_replicas, replicaset_ready_replicas,
  rolling_update_limits, desired_replicas, decrement_of, RotationTargets,
  next_rolling_update_rotation_targets,
}

-- The ships of the replica set are those that it asks for, and all are ready.
pub record IsSettled (rs : ReplicaSet) : Type 0 where
  pub counted : replicaset_status_replicas rs ≡ replicaset_spec_replicas rs
  pub ready : replicaset_ready_replicas rs ≡ replicaset_spec_replicas rs
  pub not_negative : pos 0 ≤ℤ replicaset_spec_replicas rs

-- The step scales the new replica set up, or an old one down.
abbrev pub Changes : RotationTargets → Type 0
Changes targets =
    ((target : ℤ) × (targets.0 ≡ some target))
    ⊎ ((first : String × ℤ) × (more : List (String × ℤ)) × (targets.1 ≡ first ∷ more))

settled_sums :
    (olds : List ReplicaSet)
    → ((rs : ReplicaSet) → Memᴰ rs olds → IsSettled rs)
    → (total_of replicaset_ready_replicas olds ≡ total_of replicaset_status_replicas olds)
      × (pos 0 ≤ℤ total_of replicaset_status_replicas olds)
settled_sums [] h = (refl, omega arith)
settled_sums (rs ∷ more) h =
    let here = h rs (Memᴰ.head refl) in
    let (same, positive) = settled_sums more (λ r m. h r (Memᴰ.tail m)) in
    let up : pos 0 ≤ℤ replicaset_status_replicas rs = rw here.counted here.not_negative in
    (rw (here.ready, here.counted, same) refl, omega int_laws)

taken_apart : (current d : ℤ) → pos 0 <ℤ d → eq_ℤ (current -ℤ d) current ≡ false
taken_apart current d h = elim (Bool-cases (eq_ℤ (current -ℤ d) current)) [
  | inl e ↦
      let same : current -ℤ d ≡ current = eq_ℤ_iff (current -ℤ d) current e in
      let parts : pos_part (current -ℤ d) ≡ pos_part current = ap pos_part same in
      let parts' : neg_part (current -ℤ d) ≡ neg_part current = ap neg_part same in
      absurd (omega int_laws)
  | inr e ↦ e
]

positive_rest :
    (total current more : ℤ)
    → total ≡ current +ℤ more
    → pos 0 <ℤ total
    → current ≤ℤ pos 0
    → pos 0 <ℤ more
positive_rest total current more e h k =
    let sum : pos 0 <ℤ current +ℤ more = rw (← e) h in omega int_laws

exact_removal_loop_some :
    (can : ℤ) (olds : List ReplicaSet)
    → ((rs : ReplicaSet) → Memᴰ rs olds → IsSettled rs)
    → pos 0 <ℤ can
    → pos 0 <ℤ total_of replicaset_status_replicas olds
    → (first : String × ℤ) × (more : List (String × ℤ)) × (exact_removal_loop can olds
        ≡ first ∷ more)
unfolding exact_removal_loop
exact_removal_loop_some can [] h room some_old = absurd (omega arith)
exact_removal_loop_some can (rs ∷ more) h room some_old =
    let here = h rs (Memᴰ.head refl) in
    let current = replicaset_spec_replicas rs in
    let d = decrement_of current can in
    let open_ : ltb_ℤ (pos 0) can ≡ true = ground arith in
    elim (Bool-cases (ltb_ℤ (pos 0) current)) [
      | inl k ↦
          let some_taken : pos 0 <ℤ d = ground arith in
          let apart : eq_ℤ (current -ℤ d) current ≡ false = taken_apart current d some_taken in
          (
            (unwrap_or (rs_name rs) "", current -ℤ d),
            exact_removal_loop (can -ℤ d) more,
            rw (open_, apart, exact_removal_loop) refl,
          )
      | inr k ↦
          let none_taken : d ≡ pos 0 = rw k refl in
          let here_none : current ≤ℤ pos 0 = ground arith in
          let counted : total_of replicaset_status_replicas (rs ∷ more)
              ≡ current +ℤ total_of replicaset_status_replicas more =
            rw here.counted refl in
          let others : pos 0 <ℤ total_of replicaset_status_replicas more =
            positive_rest (total_of replicaset_status_replicas (rs ∷ more)) current
              (total_of replicaset_status_replicas more) counted some_old here_none in
          let same : current -ℤ d ≡ current = rw none_taken (omega int_laws) in
          let left : can -ℤ d ≡ can = rw none_taken (omega int_laws) in
          let (first, rest, e) =
            exact_removal_loop_some can more (λ r m. h r (Memᴰ.tail m)) room others in
          (first, rest, rw (open_, same, eq_ℤ_refl current, left, exact_removal_loop) e)
    ]

max_lt : (a b c : ℤ) → a <ℤ c → b <ℤ c → max_ℤ a b <ℤ c
max_lt a b c h k = ground arith

lt_max : (a : ℤ) → pos 0 <ℤ a → pos 0 <ℤ max_ℤ a (pos 0)
lt_max a h = ground arith

-- If no replica can be added, there is an old one, and one can be removed.
room_to_remove :
    (desired surge unavailable old new : ℤ)
    → (pos 0 ≤ℤ desired)
      × (pos 0 ≤ℤ surge)
      × (pos 0 ≤ℤ unavailable)
      × (pos 0 ≤ℤ new)
      × (pos 0 ≤ℤ old)
    → pos 0 <ℤ surge +ℤ unavailable
    → (pos 0 <ℤ old) ⊎ (new <ℤ desired)
    → (ltb_ℤ (pos 0) (desired +ℤ surge -ℤ (old +ℤ new)) && ltb_ℤ new desired) ≡ false
    → (pos 0 <ℤ old)
      × (pos 0 <ℤ max_ℤ (old +ℤ new -ℤ max_ℤ (desired -ℤ unavailable) (pos 0)) (pos 0))
room_to_remove desired surge unavailable old new (d, s, u, n, o) slack incomplete e =
    let least = max_ℤ (desired -ℤ unavailable) (pos 0) in
    elim (Bool-cases (ltb_ℤ new desired)) [
      | inl k ↦
          let fewer : new <ℤ desired = ground arith in
          let full : desired +ℤ surge -ℤ (old +ℤ new) ≤ℤ pos 0 = ground arith in
          let low : desired -ℤ unavailable <ℤ old +ℤ new = omega int_laws in
          let some_replicas : pos 0 <ℤ old +ℤ new = omega int_laws in
          let below : least <ℤ old +ℤ new =
            max_lt (desired -ℤ unavailable) (pos 0) (old +ℤ new) low some_replicas in
          (omega int_laws, lt_max (old +ℤ new -ℤ least) (omega int_laws))
      | inr k ↦
          let enough : desired ≤ℤ new = ground arith in
          let some_old : pos 0 <ℤ old = elim incomplete [
            | inl h ↦ h
            | inr h ↦ absurd (omega arith)
          ] in
          let low : desired -ℤ unavailable <ℤ old +ℤ new = omega int_laws in
          let some_replicas : pos 0 <ℤ old +ℤ new = omega int_laws in
          let below : least <ℤ old +ℤ new =
            max_lt (desired -ℤ unavailable) (pos 0) (old +ℤ new) low some_replicas in
          (some_old, lt_max (old +ℤ new -ℤ least) (omega int_laws))
    ]

exact_targets-Changes :
    (dep : Deployment) (active_rs : ReplicaSet) (olds : List ReplicaSet)
    → IsSettled active_rs
    → ((rs : ReplicaSet) → Memᴰ rs olds → IsSettled rs)
    → pos 0 <ℤ (rolling_update_limits dep).0 +ℤ (rolling_update_limits dep).1
    → (pos 0 <ℤ total_of replicaset_status_replicas olds)
      ⊎ (replicaset_spec_replicas active_rs <ℤ desired_replicas dep)
    → Changes (exact_targets dep active_rs olds)
unfolding exact_targets
exact_targets-Changes dep active_rs olds new_settled settled slack incomplete =
    let desired = desired_replicas dep in
    let surge = (rolling_update_limits dep).0 in
    let unavailable = (rolling_update_limits dep).1 in
    let old_total = total_of replicaset_status_replicas olds in
    let new = replicaset_spec_replicas active_rs in
    let total = old_total +ℤ replicaset_status_replicas active_rs in
    let available =
      total_of replicaset_ready_replicas olds +ℤ replicaset_ready_replicas active_rs in
    let (same, positive) = settled_sums olds settled in
    elim (Bool-cases (ltb_ℤ (pos 0) (desired +ℤ surge -ℤ total) && ltb_ℤ new desired)) [
      | inl e ↦
          rw (e, exact_targets) (inl (min_ℤ (new +ℤ (desired +ℤ surge -ℤ total)) desired, refl))
      | inr e ↦
          let most = max_ℤ (available -ℤ max_ℤ (desired -ℤ unavailable) (pos 0)) (pos 0) in
          let all_ready : available ≡ old_total +ℤ new = rw (same, new_settled.ready) refl in
          let (some_old, room) =
            room_to_remove desired surge unavailable old_total new
              (
                (not_negative dep).0,
                (not_negative dep).1,
                (not_negative dep).2,
                new_settled.not_negative,
                positive,
              )
              slack incomplete (rw new_settled.counted at e) in
          let room' : pos 0 <ℤ most = rw all_ready room in
          let (first, more, found) = exact_removal_loop_some most olds settled room' some_old in
          rw (e, exact_targets) (inr (first, more, found))
    ]

-- As long as all replicas are ready, the replica sets have as many as they ask for, and max_surge
-- and max_unavailable are not both 0, each step of a rolling update that is not complete scales a
-- replica set: some old replicas are left or fewer new ones than desired are asked for. This
-- is for counts whose sums, like twice the desired number with max_surge, i32 can hold.
pub next_rolling_update_rotation_targets-Changes :
    (dep : Deployment) (active_rs : ReplicaSet) (olds : List ReplicaSet)
    → IsInRange dep active_rs olds
    → IsSettled active_rs
    → ((rs : ReplicaSet) → Memᴰ rs olds → IsSettled rs)
    → pos 0 <ℤ (rolling_update_limits dep).0 +ℤ (rolling_update_limits dep).1
    → (pos 0 <ℤ total_of replicaset_status_replicas olds)
      ⊎ (replicaset_spec_replicas active_rs <ℤ desired_replicas dep)
    → Changes (next_rolling_update_rotation_targets dep active_rs olds)
next_rolling_update_rotation_targets-Changes dep active_rs olds h new_settled settled slack
      incomplete =
    subst Changes (sym (next_rolling_update_rotation_targets-exact dep active_rs olds h))
      (exact_targets-Changes dep active_rs olds new_settled settled slack incomplete)
