-- ===== src/Scheduler/Plugins/Simple/Affinity.antt =====
-- The filter of tugboat-scheduler/src/plugins/node_affinity.rs against the meaning of selectors.
use tugboat.Base.{◌≡◌, ◌↔◌, some, Option-cases, inl, inr, arith}
use tugboat.Manifests.Labels.{NodeSelector}
use tugboat.Manifests.Meta.{meta_labels}
use tugboat.Manifests.Node.{Node}
use tugboat.Scheduler.Context.{SchedulingContext}
use tugboat.Scheduler.Framework.{accept}
use tugboat.Scheduler.Selectors.Meaning.{Satisfies, node_selector_matches_iff}
use tugboat.Scheduler.Plugins.Simple.{required_selector, node_affinity}

-- The filter accepts a node exactly when its labels satisfy the selector that the ship requires, if
-- the ship requires one.
pub node_affinity_iff :
    (ctx : SchedulingContext) (node : Node)
    → (node_affinity ctx node ≡ accept) ↔ (
        (selector : NodeSelector)
        → required_selector ctx ≡ some selector
        → Satisfies selector (meta_labels node.object_meta))
unfolding node_affinity
node_affinity_iff ctx node = (
  λ h selector e.
      (node_selector_matches_iff selector (meta_labels node.object_meta)).0 (ground arith),
  λ h. elim (Option-cases (required_selector ctx)) [
    | inl e ↦ rw (e, node_affinity)
    | inr (selector, e) ↦
        let m =
          (node_selector_matches_iff selector (meta_labels node.object_meta)).1 (h selector e) in
        rw (e, m, node_affinity)
  ],
)
