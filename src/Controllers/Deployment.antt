-- ===== src/Controllers/Deployment.antt =====
-- tugboat-controller-manager/src/deployment/rs_ops.rs: what a deployment reads from its replica sets,
-- and how many replicas each gets in the next step of a rolling update. Sums of i32
-- values wrap, as they do in a release build.
pub mod Exact
pub mod Rotation
pub mod Progress
use tugboat.Base.{
  ℕ, ◌-◌, min, String, Bool, true, false, not, ◌&&◌, ◌||◌, Option, none, some, List, [], ◌∷◌, ◌>>=◌,
  map, ◌==◌, is_some, is_some_and, unwrap_or, if◌then◌else◌,
}
use tugboat.Base.Lists.{any, filter, is_empty, length, take}
use tugboat.Base.Int.{ℤ, pos, pos_part, ltb_ℤ, eq_ℤ, min_ℤ, max_ℤ, add_i32, sub_i32}
use mathlib.Core.Option
use tugboat.Manifests.Meta.{ObjectMeta, meta_name}
use tugboat.Manifests.Workload.{
  ReplicaSet, ReplicaSetSpec, ReplicaSetStatus, RollingUpdateStrategy, DeploymentStrategy,
  Deployment, DeploymentSpec, DeploymentStatus,
}
use tugboat.Controllers.Workload.{
  is_controlled_by, creation_sort_key, SortKey, sort_by_key, max_by_key,
}

abbrev pub rs_name : ReplicaSet → Option String
rs_name rs = meta_name rs.object_meta

unfoldable pub is_owned_by_deployment : ReplicaSet → Deployment → Bool
unfolding is_controlled_by
is_owned_by_deployment rs dep = is_controlled_by rs.object_meta dep.object_meta "Deployment"

unfoldable pub managed_replicasets : List ReplicaSet → Deployment → List ReplicaSet
unfolding is_owned_by_deployment
managed_replicasets replicasets dep = filter (λ rs. is_owned_by_deployment rs dep) replicasets

unfoldable pub replicaset_creation_sort_key : ReplicaSet → SortKey
unfolding creation_sort_key
replicaset_creation_sort_key rs = creation_sort_key rs.object_meta (rs_name rs)

unfoldable pub active_replicaset : List ReplicaSet → Option ReplicaSet
unfolding max_by_key replicaset_creation_sort_key
active_replicaset replicasets = max_by_key replicaset_creation_sort_key replicasets

-- `a != b` of names that may be missing.
abbrev differ : Option String → Option String → Bool
differ none none = false
differ none (some b) = true
differ (some a) none = true
differ (some a) (some b) = not (a == b)

unfoldable pub old_replicasets : List ReplicaSet → Option String → List ReplicaSet
old_replicasets managed active_rs_name = filter (λ rs. differ (rs_name rs) active_rs_name) managed

abbrev pub spec_replicas : Option ReplicaSetSpec → Option ℤ
spec_replicas none = none
spec_replicas (some spec) = spec.replicas

unfoldable pub replicaset_spec_replicas : ReplicaSet → ℤ
replicaset_spec_replicas rs = unwrap_or (spec_replicas rs.spec) (pos 0)

abbrev status_replicas : Option ReplicaSetStatus → ℤ → ℤ
status_replicas none otherwise = otherwise
status_replicas (some status) otherwise = status.replicas

unfoldable pub replicaset_status_replicas : ReplicaSet → ℤ
unfolding replicaset_spec_replicas
replicaset_status_replicas rs = status_replicas rs.status (replicaset_spec_replicas rs)

abbrev status_ready : Option ReplicaSetStatus → ℤ
status_ready none = pos 0
status_ready (some status) = status.ready_replicas

unfoldable pub replicaset_ready_replicas : ReplicaSet → ℤ
replicaset_ready_replicas rs = status_ready rs.status

unfoldable pub has_old_running_replicas : List ReplicaSet → Bool
unfolding replicaset_status_replicas
has_old_running_replicas olds = any (λ rs. ltb_ℤ (pos 0) (replicaset_status_replicas rs)) olds

-- The replica set is scaled to 0 and has no ships left.
unfoldable pub is_stale : ReplicaSet → Bool
is_stale rs =
    is_some_and (spec_replicas rs.spec) (λ n. eq_ℤ n (pos 0))
    && eq_ℤ (status_replicas rs.status (pos 0)) (pos 0)

unfoldable pub stale_replicasets_for_cleanup : List ReplicaSet → ℕ → List ReplicaSet
unfolding is_stale sort_by_key replicaset_creation_sort_key
stale_replicasets_for_cleanup olds revision_history_limit =
    let zeroed = sort_by_key replicaset_creation_sort_key (filter is_stale olds) in
    let keep = min revision_history_limit (length zeroed) in take (length zeroed - keep) zeroed

abbrev history_limit : Option DeploymentSpec → Option ℤ
history_limit none = none
history_limit (some spec) = spec.revision_history_limit

unfoldable pub revision_history_limit : Deployment → ℕ
revision_history_limit dep = pos_part (max_ℤ (unwrap_or (history_limit dep.spec) (pos 0)) (pos 0))

abbrev rolling_update_of : Option DeploymentSpec → Option RollingUpdateStrategy
rolling_update_of spec = do s ← spec; strategy ← s.strategy; strategy.rolling_update

abbrev surge_of : Option RollingUpdateStrategy → ℤ
surge_of none = pos 1
surge_of (some rolling) = unwrap_or rolling.max_surge (pos 1)

abbrev unavailable_of : Option RollingUpdateStrategy → ℤ
unavailable_of none = pos 1
unavailable_of (some rolling) = unwrap_or rolling.max_unavailable (pos 1)

unfoldable pub rolling_update_limits : Deployment → ℤ × ℤ
rolling_update_limits dep =
    let rolling = rolling_update_of dep.spec in
    (max_ℤ (surge_of rolling) (pos 0), max_ℤ (unavailable_of rolling) (pos 0))

-- `Iterator::sum` of i32 values.
abbrev pub sum_i32 : List ℤ → ℤ
sum_i32 [] = pos 0
sum_i32 (n ∷ more) = add_i32 n (sum_i32 more)

unfoldable pub sum_status_replicas : List ReplicaSet → ℤ
unfolding replicaset_status_replicas
sum_status_replicas replicasets = sum_i32 (map replicaset_status_replicas replicasets)

unfoldable pub sum_ready_replicas : List ReplicaSet → ℤ
unfolding replicaset_ready_replicas
sum_ready_replicas replicasets = sum_i32 (map replicaset_ready_replicas replicasets)

unfoldable pub build_deployment_status : List ReplicaSet → Option ReplicaSet → DeploymentStatus
unfolding sum_status_replicas sum_ready_replicas replicaset_status_replicas
build_deployment_status managed active = record {
  replicas = sum_status_replicas managed;
  ready_replicas = sum_ready_replicas managed;
  updated_replicas = unwrap_or (Option.map replicaset_status_replicas active) (pos 0);
}

-- `dep.spec.replicas`, 1 if it is missing, and at least 0.
unfoldable pub desired_replicas : Deployment → ℤ
desired_replicas dep = max_ℤ (unwrap_or (do spec ← dep.spec; spec.replicas) (pos 1)) (pos 0)

-- What a replica set with this many replicas gives up, of what may be taken away.
abbrev pub decrement_of : ℤ → ℤ → ℤ
decrement_of current can_remove = if ltb_ℤ (pos 0) current then min_ℤ current can_remove else pos 0

-- The `for` loop over the old replica sets: `can_remove` is what may still be taken away. A set
-- without replicas gives up none, so its target is what it has.
unfoldable pub removal_loop : ℤ → List ReplicaSet → List (String × ℤ)
unfolding replicaset_spec_replicas
removal_loop can_remove [] = []
removal_loop can_remove (rs ∷ more) =
    let current = replicaset_spec_replicas rs in
    let decrement = decrement_of current can_remove in
    let target = sub_i32 current decrement in
    let rest = removal_loop (sub_i32 can_remove decrement) more in
    if not (ltb_ℤ (pos 0) can_remove)
    then []
    else if eq_ℤ target current
    then rest
    else (unwrap_or (rs_name rs) "", target) ∷ rest

abbrev pub RotationTargets : Type 0
RotationTargets = Option ℤ × List (String × ℤ) × Bool

unfoldable pub next_rolling_update_rotation_targets :
    Deployment → ReplicaSet → List ReplicaSet → RotationTargets
unfolding desired_replicas rolling_update_limits sum_status_replicas sum_ready_replicas removal_loop
    replicaset_spec_replicas replicaset_status_replicas replicaset_ready_replicas
next_rolling_update_rotation_targets dep active_rs olds =
    let desired = desired_replicas dep in
    let (max_surge, max_unavailable) = rolling_update_limits dep in
    let old_total = sum_status_replicas olds in
    let new_spec = replicaset_spec_replicas active_rs in
    let total = add_i32 old_total (replicaset_status_replicas active_rs) in
    let can_add = sub_i32 (add_i32 desired max_surge) total in
    let grows = ltb_ℤ (pos 0) can_add && ltb_ℤ new_spec desired in
    let target_new_spec = if grows then some (min_ℤ (add_i32 new_spec can_add) desired) else none in
    let min_available = max_ℤ (sub_i32 desired max_unavailable) (pos 0) in
    let available = add_i32 (sum_ready_replicas olds) (replicaset_ready_replicas active_rs) in
    let can_remove = if grows then pos 0 else max_ℤ (sub_i32 available min_available) (pos 0) in
    let old_targets = removal_loop can_remove olds in
    let progressed = grows || not (is_empty old_targets) in
    let rollout_complete =
      eq_ℤ old_total (pos 0)
      && not (ltb_ℤ new_spec desired)
      && not (ltb_ℤ (replicaset_ready_replicas active_rs) desired) in
    (target_new_spec, old_targets, progressed || not rollout_complete)

-- `a == b` of counts that may be missing.
abbrev same_replicas : Option ℤ → Option ℤ → Bool
same_replicas none none = true
same_replicas none (some b) = false
same_replicas (some a) none = false
same_replicas (some a) (some b) = eq_ℤ a b

abbrev with_replicas : ReplicaSet → Option ReplicaSetSpec → Option ℤ → Option ReplicaSet
with_replicas rs none replicas = none
with_replicas rs (some spec) replicas =
    if same_replicas spec.replicas replicas
    then none
    else some (record rs { spec = some (record spec { replicas = replicas }) })

unfoldable pub update_replicaset_replicas : ReplicaSet → Option ℤ → Option ReplicaSet
update_replicaset_replicas active_rs replicas = with_replicas active_rs active_rs.spec replicas
