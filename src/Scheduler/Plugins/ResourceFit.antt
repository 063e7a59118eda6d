-- ===== src/Scheduler/Plugins/ResourceFit.antt =====
-- tugboat-scheduler/src/plugins/resource_fit.rs: rejects nodes that lack the CPU or the memory that
-- the ship's class asks for.
pub mod Capacity
use tugboat.Base.{ℕ, ◌-◌, String, Option, some, none, ◌>>=◌, unwrap_or, ltb, if◌then◌else◌}
use tugboat.Base.Float.{F64}
use tugboat.Manifests.Meta.{meta_name}
use tugboat.Manifests.Node.{Node, NodeOvercommitSpec, NodeResource}
use tugboat.Scheduler.Context.{SchedulingContext, node_resource_usage, requested_resources}
use tugboat.Scheduler.Framework.{
  FilterPlugin, FilterResult, accept, reject, insufficient_cpu, insufficient_memory,
}

abbrev pub node_name_or_unknown : Node → String
node_name_or_unknown node = unwrap_or (meta_name node.object_meta) "unknown"

abbrev pub node_resource : Node → Option NodeResource
node_resource node = do spec ← node.spec; spec.resource

abbrev pub node_overcommit : Node → Option NodeOvercommitSpec
node_overcommit node = do spec ← node.spec; spec.overcommit

module _ (fl : F64) where
  -- `(base as f64 * ratio) as u64`, where a ratio that is missing or does not parse is 1.0.
  abbrev pub scaled : ℕ → Option String → ℕ
  scaled base ratio =
      fl.to_u64
        (fl.mul (fl.of_u64 base) (unwrap_or (do text ← ratio; fl.parse_f64 text) (fl.of_u64 1)))

  unfoldable pub node_allocatable : Node → ℕ × ℕ
  node_allocatable node = (
    scaled (unwrap_or (do r ← node_resource node; some r.cpu) 0)
        (do o ← node_overcommit node; some o.cpu_ratio),
    scaled (unwrap_or (do r ← node_resource node; some r.memory) 0)
        (do o ← node_overcommit node; some o.memory_ratio),
  )

  -- The comparison of the request with what is left of the allocatable resources.
  pub compare_request : (alloc used req : ℕ × ℕ) → FilterResult
  compare_request alloc used req =
      let avail_cpu = alloc.0 - used.0 in
      let avail_memory = alloc.1 - used.1 in
      if ltb avail_cpu req.0
      then reject (insufficient_cpu req.0 avail_cpu)
      else if ltb avail_memory req.1
      then reject (insufficient_memory req.1 avail_memory)
      else accept

  unfoldable pub resource_fit : SchedulingContext → Node → FilterResult
  unfolding compare_request
  resource_fit ctx node =
      compare_request (node_allocatable node)
        (node_resource_usage fl ctx (node_name_or_unknown node)) (requested_resources fl ctx)

  abbrev pub resource_fit_filter : FilterPlugin
  resource_fit_filter = record { name = "ResourceFit"; filter = resource_fit }
