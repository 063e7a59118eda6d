-- ===== src/Scheduler/Registry.antt =====
-- tugboat-scheduler/src/plugins/mod.rs, the plugin names of config.rs, and the loops of lib.rs that
-- build the framework from the configured names.
pub mod Defaults
use tugboat.Base.{String, Bool, Option, none, some, List, [], ◌∷◌, ◌==◌, if◌then◌else◌}
use tugboat.Base.Float.{F64}
use tugboat.Scheduler.Framework.{
  Framework, FilterPlugin, ScorePlugin, new, add_filter_plugin, add_score_plugin,
}
use tugboat.Scheduler.Plugins.Simple.{
  unschedulable_filter, node_affinity_filter, node_affinity_scorer, image_locality_scorer,
}
use tugboat.Scheduler.Plugins.Network.{network_fit_filter}
use tugboat.Scheduler.Plugins.Taints.{taint_toleration_filter, taint_toleration_scorer}
use tugboat.Scheduler.Plugins.ResourceFit.{resource_fit_filter}
use tugboat.Scheduler.Plugins.LeastAllocated.{least_allocated_scorer}
use tugboat.Scheduler.Plugins.RuntimeClass.{runtime_class_fit_filter}
use tugboat.Scheduler.Plugins.Storage.{
  storage_fit_filter, storage_binding_ready_filter, volume_topology_filter,
}
use tugboat.Scheduler.Plugins.ShipAffinity.{ship_affinity_filter}
use tugboat.Scheduler.Plugins.TopologySpread.{topology_spread_filter, topology_spread_scorer}

abbrev pub default_filter_plugins : List String
default_filter_plugins =
    "Unschedulable" ∷ "NetworkFit" ∷ "TaintToleration" ∷ "RuntimeClassFit" ∷ "ResourceFit"
    ∷ "StorageFit" ∷ "StorageBindingReady" ∷ "VolumeTopology" ∷ "NodeAffinity" ∷ "ShipAffinity"
    ∷ "TopologySpread" ∷ []

abbrev pub default_score_plugins : List String
default_score_plugins =
    "TaintToleration" ∷ "LeastAllocated" ∷ "NodeAffinity" ∷ "TopologySpread" ∷ "ImageLocality" ∷ []

module _ (fl : F64) where
  unfoldable pub create_filter_plugin : String → Option FilterPlugin
  create_filter_plugin name =
      if name == "Unschedulable"
      then some unschedulable_filter
      else if name == "NetworkFit"
      then some network_fit_filter
      else if name == "TaintToleration"
      then some taint_toleration_filter
      else if name == "ResourceFit"
      then some (resource_fit_filter fl)
      else if name == "RuntimeClassFit"
      then some runtime_class_fit_filter
      else if name == "StorageFit"
      then some storage_fit_filter
      else if name == "StorageBindingReady"
      then some storage_binding_ready_filter
      else if name == "VolumeTopology"
      then some volume_topology_filter
      else if name == "NodeAffinity"
      then some node_affinity_filter
      else if name == "ShipAffinity"
      then some ship_affinity_filter
      else if name == "TopologySpread"
      then some topology_spread_filter
      else none

  unfoldable pub create_score_plugin : String → Option ScorePlugin
  create_score_plugin name =
      if name == "TaintToleration"
      then some taint_toleration_scorer
      else if name == "LeastAllocated"
      then some (least_allocated_scorer fl)
      else if name == "NodeAffinity"
      then some node_affinity_scorer
      else if name == "TopologySpread"
      then some topology_spread_scorer
      else if name == "ImageLocality"
      then some image_locality_scorer
      else none

  -- The two loops; an unknown name is only logged.
  pub add_filters : Framework → List String → Framework
  add_filters fw [] = fw
  add_filters fw (name ∷ names) =
      add_filters
        (elim (create_filter_plugin name) [ none ↦ fw | some plugin ↦ add_filter_plugin fw plugin ])
        names

  pub add_scorers : Framework → List String → Framework
  add_scorers fw [] = fw
  add_scorers fw (name ∷ names) =
      add_scorers
        (elim (create_score_plugin name) [ none ↦ fw | some plugin ↦ add_score_plugin fw plugin ])
        names

  -- The framework of a configuration that names these plugins.
  unfoldable pub configured : (filters scorers : List String) → Framework
  unfolding add_filters add_scorers new add_filter_plugin add_score_plugin create_filter_plugin
      create_score_plugin
  configured filters scorers = add_scorers (add_filters new filters) scorers
