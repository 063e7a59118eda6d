-- ===== src/Scheduler/Plugins/Taints.antt =====
-- tugboat-scheduler/src/plugins/taint_toleration.rs: taints that the ship does not tolerate.
pub mod Meaning
use tugboat.Base.{
  ℕ, String, Bool, true, false, not, ◌&&◌, ◌||◌, Option, none, some, List, [], ◌∷◌, any, unwrap_or,
  ◌==◌, if◌then◌else◌,
}
use tugboat.Base.Int.{ℤ, pos, negsuc, ◌-ℤ◌}
use tugboat.Base.Text.{is_blank}
use tugboat.Manifests.Node.{Node, Taint}
use tugboat.Manifests.Ship.{Ship, Toleration}
use tugboat.Scheduler.Context.{SchedulingContext}
use tugboat.Scheduler.Framework.{
  FilterPlugin, FilterResult, accept, reject, not_tolerated, ScorePlugin, ScoreResult, score,
}

-- A toleration without a key, and one with the taint's key.
keyless_matches : Toleration → Taint → Bool
keyless_matches toleration taint = is_blank toleration.effect || toleration.effect == taint.effect

keyed_matches : String → Toleration → Taint → Bool
keyed_matches tol_key toleration taint =
    if not (tol_key == taint.key)
    then false
    else if not (is_blank toleration.effect) && not (toleration.effect == taint.effect)
    then false
    else if toleration.operator == "Exists"
    then true
    else if toleration.operator == "Equal" || is_blank toleration.operator
    then unwrap_or toleration.value "" == taint.value
    else false

unfoldable pub toleration_matches_taint : Toleration → Taint → Bool
unfolding keyless_matches keyed_matches
toleration_matches_taint toleration taint = elim toleration.key [
  | none ↦ keyless_matches toleration taint
  | some tol_key ↦ keyed_matches tol_key toleration taint
]

abbrev pub ship_tolerates_taint : List Toleration → Taint → Bool
ship_tolerates_taint tolerations taint = any (λ t. toleration_matches_taint t taint) tolerations

abbrev pub node_taints : Node → List Taint
node_taints node = elim node.spec [ none ↦ [] | some spec ↦ spec.taints ]

abbrev pub ship_tolerations : Ship → List Toleration
ship_tolerations ship = elim ship.spec [ none ↦ [] | some spec ↦ spec.tolerations ]

-- `taint.effect == effect && !ship_tolerates_taint(tolerations, taint)`.
abbrev pub repels : String → List Toleration → Taint → Bool
repels effect tolerations taint =
    taint.effect == effect && not (ship_tolerates_taint tolerations taint)

no_schedule_loop : List Toleration → List Taint → FilterResult
no_schedule_loop tolerations [] = accept
no_schedule_loop tolerations (taint ∷ taints) =
    let rest = no_schedule_loop tolerations taints in
    if repels "NoSchedule" tolerations taint
    then reject (not_tolerated taint.key taint.value)
    else rest

unfoldable pub taint_toleration : SchedulingContext → Node → FilterResult
unfolding no_schedule_loop
taint_toleration ctx node = no_schedule_loop (ship_tolerations ctx.ship) (node_taints node)

-- The loop over the taints with the penalty so far.
penalty_loop : List Toleration → ℤ → List Taint → ℤ
penalty_loop tolerations penalty [] = penalty
penalty_loop tolerations penalty (taint ∷ taints) =
    penalty_loop tolerations
      (if repels "PreferNoSchedule" tolerations taint then penalty -ℤ pos 50 else penalty) taints

unfoldable pub taint_toleration_score : SchedulingContext → Node → ScoreResult
unfolding penalty_loop
taint_toleration_score ctx node =
    score (penalty_loop (ship_tolerations ctx.ship) (pos 0) (node_taints node))

abbrev pub taint_toleration_filter : FilterPlugin
taint_toleration_filter = record { name = "TaintToleration"; filter = taint_toleration }

abbrev pub taint_toleration_scorer : ScorePlugin
taint_toleration_scorer = record { name = "TaintToleration"; score = taint_toleration_score }
