-- ===== src/Scheduler/Plugins/Simple.antt =====
-- The plugins unschedulable.rs, image_locality.rs, node_affinity.rs and node_affinity_score.rs of
-- tugboat-scheduler/src/plugins.
pub mod Scores
pub mod Affinity
use tugboat.Base.{
  ℕ, String, Bool, true, false, Option, none, some, List, [], ◌∷◌, ◌>>=◌, any, is_empty,
  is_some_and, unwrap_or, keep_if, ◌==◌, if◌then◌else◌,
}
use tugboat.Base.Dict.{Dict}
use tugboat.Base.Int.{ℤ, pos, ◌+ℤ◌, ◌*ℤ◌, clamp_ℤ, div_ℤ, pos_part, is_zero_ℤ}
use tugboat.Manifests.Meta.{meta_labels}
use tugboat.Manifests.Node.{Node}
use tugboat.Manifests.Ship.{NodeAffinity, PreferredSchedulingTerm}
use tugboat.Manifests.Labels.{NodeSelector}
use tugboat.Scheduler.Context.{SchedulingContext, not_empty}
use tugboat.Scheduler.Selectors.{
  node_selector_matches, node_selector_term_matches, first_unsatisfied_node_selector_key,
}
use tugboat.Scheduler.Framework.{
  FilterPlugin, FilterResult, accept, reject, ScorePlugin, ScoreResult, score, skip,
  node_affinity_not_satisfied,
}
use tugboat.Scheduler.Framework
use mathlib.Core.Option

unfoldable pub unschedulable : SchedulingContext → Node → FilterResult
unschedulable ctx node =
    if unwrap_or (do spec ← node.spec; spec.unschedulable) false
    then reject Framework.Reason.unschedulable
    else accept

unfoldable pub image_locality : SchedulingContext → Node → ScoreResult
image_locality ctx node = elim (keep_if not_empty (do spec ← ctx.ship.spec; some spec.image)) [
  | none ↦ skip
  | some image ↦ score (
      if is_some_and node.status (λ status. any (λ item. item.image == image) status.images)
      then pos 100
      else pos 0)
]

abbrev pub ship_node_affinity : SchedulingContext → Option NodeAffinity
ship_node_affinity ctx = do spec ← ctx.ship.spec; affinity ← spec.affinity; affinity.node_affinity

abbrev pub required_selector : SchedulingContext → Option NodeSelector
required_selector ctx = do a ← ship_node_affinity ctx; a.required_during_scheduling

unfoldable pub node_affinity : SchedulingContext → Node → FilterResult
node_affinity ctx node = elim (required_selector ctx) [
  | none ↦ accept
  | some selector ↦
      let labels = meta_labels node.object_meta in
      if node_selector_matches selector labels
      then accept
      else reject (
          node_affinity_not_satisfied
            (unwrap_or (first_unsatisfied_node_selector_key selector labels) "<unknown>"))
]

-- `term.weight.clamp(0, 100) as i64`.
abbrev pub term_weight : PreferredSchedulingTerm → ℤ
term_weight term = clamp_ℤ (pos 0) (pos 100) term.weight

abbrev pub preference_matches : Dict String → PreferredSchedulingTerm → Bool
preference_matches labels term =
    is_some_and term.preference (λ preference. node_selector_term_matches preference labels)

-- The loop's two sums, `(max_weight, matched_weight)`.
weight_loop : Dict String → ℤ × ℤ → List PreferredSchedulingTerm → ℤ × ℤ
weight_loop labels sums [] = sums
weight_loop labels (max_weight, matched_weight) (term ∷ terms) =
    let weight = term_weight term in
    weight_loop labels
      (
        max_weight +ℤ weight,
        if preference_matches labels term then matched_weight +ℤ weight else matched_weight,
      )
      terms

-- The sum of the weights is not negative, so its part `pos_part` is the whole of it.
weighted_score : ℤ × ℤ → ScoreResult
weighted_score (max_weight, matched_weight) =
    if is_zero_ℤ max_weight
    then skip
    else score (div_ℤ (matched_weight *ℤ pos 100) (pos_part max_weight))

unfoldable pub node_affinity_score : SchedulingContext → Node → ScoreResult
unfolding weight_loop weighted_score
node_affinity_score ctx node = elim (ship_node_affinity ctx) [
  | none ↦ skip
  | some affinity ↦
      if is_empty affinity.preferred_during_scheduling
      then skip
      else weighted_score (
          weight_loop (meta_labels node.object_meta) (pos 0, pos 0)
            affinity.preferred_during_scheduling)
]

abbrev pub unschedulable_filter : FilterPlugin
unschedulable_filter = record { name = "Unschedulable"; filter = unschedulable }

abbrev pub node_affinity_filter : FilterPlugin
node_affinity_filter = record { name = "NodeAffinity"; filter = node_affinity }

abbrev pub image_locality_scorer : ScorePlugin
image_locality_scorer = record { name = "ImageLocality"; score = image_locality }

abbrev pub node_affinity_scorer : ScorePlugin
node_affinity_scorer = record { name = "NodeAffinity"; score = node_affinity_score }
