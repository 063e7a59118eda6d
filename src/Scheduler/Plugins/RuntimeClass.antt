-- ===== src/Scheduler/Plugins/RuntimeClass.antt =====
-- tugboat-scheduler/src/plugins/runtime_class_fit.rs: the runtime class that a node advertises.
use tugboat.Base.{
  String, Bool, false, not, ◌&&◌, Option, none, some, ◌>>=◌, is_some, is_some_and, keep_if,
  unwrap_or, ◌==◌, if◌then◌else◌,
}
use tugboat.Base.Dict.{get}
use tugboat.Base.Text.{trim}
use tugboat.Manifests.Node.{Node, RuntimeClass}
use tugboat.Scheduler.Context.{SchedulingContext, find_runtime_class, not_empty}
use tugboat.Scheduler.Cycle.{requested_runtime_class}
use tugboat.Scheduler.Framework.{
  FilterPlugin, FilterResult, accept, reject, no_runtime_class_label, runtime_class_mismatch,
  no_live_migration,
}
use tugboat.Scheduler.Framework
use mathlib.Core.Option

abbrev node_runtime_class_label_key : String
node_runtime_class_label_key = "tugboat.cloud/runtime-class"

abbrev pub node_runtime_class_name : Node → Option String
node_runtime_class_name node =
    keep_if not_empty
      (Option.map trim (do meta ← node.object_meta; get node_runtime_class_label_key meta.labels))

abbrev pub ship_requires_live_migration : SchedulingContext → Bool
ship_requires_live_migration ctx =
    is_some_and (Option.map trim (do spec ← ctx.ship.spec; spec.target_node_name)) not_empty

abbrev pub migrates_live : RuntimeClass → Bool
migrates_live rc = unwrap_or (Option.map (λ s. s.live_migration) rc.spec) false

runtime_class_of_node : SchedulingContext → Option String → String → FilterResult
runtime_class_of_node ctx requested name =
    if is_some_and requested (λ r. not (name == r))
    then reject (runtime_class_mismatch name (unwrap_or requested ""))
    else elim (find_runtime_class ctx name) [
      | none ↦ reject (Framework.Reason.runtime_class_not_found name)
      | some rc ↦
          if ship_requires_live_migration ctx && not (migrates_live rc)
          then reject (no_live_migration name)
          else accept
    ]

unfoldable pub runtime_class_fit : SchedulingContext → Node → FilterResult
unfolding runtime_class_of_node
runtime_class_fit ctx node =
    let requested = requested_runtime_class ctx.ship in
    if not (is_some requested) && not (ship_requires_live_migration ctx)
    then accept
    else elim (node_runtime_class_name node) [
      | none ↦ reject no_runtime_class_label
      | some name ↦ runtime_class_of_node ctx requested name
    ]

abbrev pub runtime_class_fit_filter : FilterPlugin
runtime_class_fit_filter = record { name = "RuntimeClassFit"; filter = runtime_class_fit }
