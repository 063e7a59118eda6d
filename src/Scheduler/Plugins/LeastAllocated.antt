-- ===== src/Scheduler/Plugins/LeastAllocated.antt =====
-- tugboat-scheduler/src/plugins/least_allocated.rs: prefers the nodes with the most resources left.
use tugboat.Base.{ℕ, ◌-◌, String, Option, some, ◌>>=◌, unwrap_or, ltb, if◌then◌else◌}
use tugboat.Base.Float.{F64}
use tugboat.Base.Int.{ℤ, pos, ◌+ℤ◌, div_ℤ}
use tugboat.Manifests.Meta.{meta_name}
use tugboat.Manifests.Node.{Node, NodeOvercommitSpec, NodeResource}
use tugboat.Scheduler.Context.{SchedulingContext, node_resource_usage}
use tugboat.Scheduler.Framework.{ScorePlugin, ScoreResult, score}

module _ (fl : F64) where
  abbrev ratio_or_one : Option String → fl.Carrier
  ratio_or_one ratio = unwrap_or (do text ← ratio; fl.parse_f64 text) (fl.of_u64 1)

  unfoldable pub node_allocatable : Node → ℕ × ℕ
  node_allocatable node =
      let resource : Option NodeResource = (do spec ← node.spec; spec.resource) in
      let overcommit : Option NodeOvercommitSpec = (do spec ← node.spec; spec.overcommit) in
      let base_cpu : ℕ = unwrap_or (do r ← resource; some r.cpu) 0 in
      let base_memory : ℕ = unwrap_or (do r ← resource; some r.memory) 0 in
      let cpu_ratio : fl.Carrier = ratio_or_one (do o ← overcommit; some o.cpu_ratio) in
      let memory_ratio : fl.Carrier = ratio_or_one (do o ← overcommit; some o.memory_ratio) in
      (
        fl.to_u64 (fl.mul (fl.of_u64 base_cpu) cpu_ratio),
        fl.to_u64 (fl.mul (fl.of_u64 base_memory) memory_ratio),
      )

  -- `(alloc.saturating_sub(used)) as f64 / alloc as f64 * 100.0`, as i64, or 0 of nothing.
  pub availability : ℕ → ℕ → ℤ
  availability alloc used =
      if ltb 0 alloc
      then fl.to_i64 (fl.mul (fl.div (fl.of_u64 (alloc - used)) (fl.of_u64 alloc)) (fl.of_u64 100))
      else pos 0

  unfoldable pub least_allocated : SchedulingContext → Node → ScoreResult
  unfolding availability
  least_allocated ctx node =
      let node_name = unwrap_or (meta_name node.object_meta) "unknown" in
      let (alloc_cpu, alloc_memory) = node_allocatable node in
      let (used_cpu, used_memory) = node_resource_usage fl ctx node_name in
      score (div_ℤ (availability alloc_cpu used_cpu +ℤ availability alloc_memory used_memory) 2)

  abbrev pub least_allocated_scorer : ScorePlugin
  least_allocated_scorer = record { name = "LeastAllocated"; score = least_allocated }
