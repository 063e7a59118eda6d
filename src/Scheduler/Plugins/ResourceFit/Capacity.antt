-- ===== src/Scheduler/Plugins/ResourceFit/Capacity.antt =====
-- What the acceptance of tugboat-scheduler/src/plugins/resource_fit.rs guarantees once
-- tugboat-scheduler/src/scheduler.rs has bound the ship.
use tugboat.Base.{
  ℕ, ◌+◌, ◌-◌, ◌≤◌, zero, suc, ◌≡◌, refl, ◌∙◌, ap, ◌⊎◌, inl, inr, String, false, some, List, [],
  ◌∷◌, ◌++◌, min, arith,
}
use text.Mathlib.TextPositions.{eq_refl}
use tugboat.Base.Float.{F64}
use tugboat.Base.Text.{u64_max}
use tugboat.Manifests.Meta.{is_named}
use tugboat.Manifests.Node.{Node}
use tugboat.Manifests.Ship.{Ship, ShipSpec}
use tugboat.Scheduler.Context.{
  SchedulingContext, assigned_node, ship_class_name, find_ship_class, node_resource_usage,
  requested_resources,
}
use tugboat.Scheduler.Context.Usage.{demand, cpu_demand, memory_demand, node_resource_usage-eq}
use tugboat.Scheduler.Cycle.{bind_ship}
use tugboat.Scheduler.Framework.{accept}
use tugboat.Scheduler.Plugins.ResourceFit.{
  node_allocatable, node_name_or_unknown, resource_fit, compare_request,
}

module _ (fl : F64) (ctx : SchedulingContext) (node_name : String) where
  cpu_demand-append :
      (xs ys : List Ship)
      → cpu_demand fl ctx node_name (xs ++ ys)
        ≡ cpu_demand fl ctx node_name xs + cpu_demand fl ctx node_name ys
  unfolding cpu_demand
  cpu_demand-append [] ys = omega arith
  cpu_demand-append (x ∷ xs) ys = omega (arith, cpu_demand-append xs ys)

  memory_demand-append :
      (xs ys : List Ship)
      → memory_demand fl ctx node_name (xs ++ ys)
        ≡ memory_demand fl ctx node_name xs + memory_demand fl ctx node_name ys
  unfolding memory_demand
  memory_demand-append [] ys = omega arith
  memory_demand-append (x ∷ xs) ys = omega (arith, memory_demand-append xs ys)

-- The cluster after the binding, where the ship stood between `before` and `behind`.
abbrev pub after_binding : SchedulingContext → String → List Ship → List Ship → SchedulingContext
after_binding ctx node_name before behind = record ctx {
  all_ships = before ++ bind_ship ctx.ship node_name ∷ behind;
}

-- The ship is known once to the cluster, has a spec and the class of the context, and is not on the
-- node yet.
pub record IsPending (ctx : SchedulingContext) (node_name : String) (before behind : List Ship)
    : Type 0 where
  pub spec : ShipSpec
  pub has_spec : ctx.ship.spec ≡ some spec
  pub listed : ctx.all_ships ≡ before ++ ctx.ship ∷ behind
  pub elsewhere : is_named (assigned_node ctx.ship) node_name ≡ false
  pub class_found : find_ship_class ctx (ship_class_name ctx.ship) ≡ some ctx.ship_class

module _ (fl : F64) (ctx : SchedulingContext) (node_name : String) (before behind : List Ship)
    (p : IsPending ctx node_name before behind) where
  abbrev after : SchedulingContext
  after = after_binding ctx node_name before behind

  demand-same : (ship : Ship) → demand fl after node_name ship ≡ demand fl ctx node_name ship
  unfolding demand find_ship_class
  demand-same ship = refl

  demand-pending : demand fl ctx node_name ctx.ship ≡ (0, 0)
  unfolding demand
  demand-pending = rw p.elsewhere

  demand-bound : demand fl ctx node_name (bind_ship ctx.ship node_name) ≡ requested_resources fl ctx
  unfolding demand bind_ship requested_resources
  demand-bound = ground (arith, p.has_spec, p.class_found, eq_refl node_name)

  cpu_demand-same :
      (ships : List Ship) → cpu_demand fl after node_name ships ≡ cpu_demand fl ctx node_name ships
  unfolding cpu_demand
  cpu_demand-same [] = refl
  cpu_demand-same (s ∷ ss) = cc (demand-same s, cpu_demand-same ss)

  memory_demand-same :
      (ships : List Ship)
      → memory_demand fl after node_name ships ≡ memory_demand fl ctx node_name ships
  unfolding memory_demand
  memory_demand-same [] = refl
  memory_demand-same (s ∷ ss) = cc (demand-same s, memory_demand-same ss)

  -- The exact demand grows by the request.
  cpu_demand-after :
      cpu_demand fl after node_name after.all_ships
      ≡ cpu_demand fl ctx node_name ctx.all_ships + (requested_resources fl ctx).0
  unfolding cpu_demand
  cpu_demand-after = omega (
    arith,
    cpu_demand-same after.all_ships,
    ap (cpu_demand fl ctx node_name) p.listed,
    cpu_demand-append fl ctx node_name before (bind_ship ctx.ship node_name ∷ behind),
    cpu_demand-append fl ctx node_name before (ctx.ship ∷ behind),
    ap (λ (d : ℕ × ℕ). d.0) demand-bound,
    ap (λ (d : ℕ × ℕ). d.0) demand-pending,
  )

  memory_demand-after :
      memory_demand fl after node_name after.all_ships
      ≡ memory_demand fl ctx node_name ctx.all_ships + (requested_resources fl ctx).1
  unfolding memory_demand
  memory_demand-after = omega (
    arith,
    memory_demand-same after.all_ships,
    ap (memory_demand fl ctx node_name) p.listed,
    memory_demand-append fl ctx node_name before (bind_ship ctx.ship node_name ∷ behind),
    memory_demand-append fl ctx node_name before (ctx.ship ∷ behind),
    ap (λ (d : ℕ × ℕ). d.1) demand-bound,
    ap (λ (d : ℕ × ℕ). d.1) demand-pending,
  )

-- An accepted request fits into what is left of both resources.
compare_request-accepts :
    (fl : F64) (alloc used req : ℕ × ℕ)
    → compare_request fl alloc used req ≡ accept
    → (req.0 ≤ alloc.0 - used.0) × (req.1 ≤ alloc.1 - used.1)
unfolding compare_request
compare_request-accepts fl alloc used req h = ground arith

-- An accepted node has what the ship asks for left of both resources.
pub resource_fit-fits :
    (fl : F64) (ctx : SchedulingContext) (node : Node)
    → resource_fit fl ctx node ≡ accept
    → let used = node_resource_usage fl ctx (node_name_or_unknown node) in
      ((requested_resources fl ctx).0 ≤ (node_allocatable fl node).0 - used.0)
      × ((requested_resources fl ctx).1 ≤ (node_allocatable fl node).1 - used.1)
unfolding resource_fit
resource_fit-fits fl ctx node h = compare_request-accepts fl _ _ _ h

-- The usage of a resource that is counted exactly up to u64::MAX, before and after a request that
-- fits was added.
fits_after :
    (alloc exact req used new : ℕ)
    → used ≡ min exact u64_max
    → new ≡ min (exact + req) u64_max
    → req ≤ alloc - used
    → (new ≤ alloc) ⊎ (new ≡ used)
fits_after alloc exact zero used new e f h = inr (omega arith)
fits_after alloc exact (suc req) used new e f h = inl (omega arith)

-- If the filter accepts a node for a pending ship, then binding the ship to it leaves the node's CPU
-- usage within its allocatable CPU, or as it was; and the same for memory. (The second case is that
-- of a ship that asks for none of the resource.)
pub resource_fit-keeps_capacity :
    (fl : F64) (ctx : SchedulingContext) (node : Node) (before behind : List Ship)
    → IsPending ctx (node_name_or_unknown node) before behind
    → resource_fit fl ctx node ≡ accept
    → let name = node_name_or_unknown node in
      let old = node_resource_usage fl ctx name in
      let new = node_resource_usage fl (after_binding ctx name before behind) name in
      let alloc = node_allocatable fl node in
      ((new.0 ≤ alloc.0) ⊎ (new.0 ≡ old.0)) × ((new.1 ≤ alloc.1) ⊎ (new.1 ≡ old.1))
unfolding resource_fit
resource_fit-keeps_capacity fl ctx node before behind p h =
    let name = node_name_or_unknown node in
    let ctx' = after_binding ctx name before behind in
    let (fits_cpu, fits_memory) = compare_request-accepts fl _ _ _ h in
    let old = node_resource_usage-eq fl ctx name in
    let new = node_resource_usage-eq fl ctx' name in
    let grown_cpu = cpu_demand-after fl ctx name before behind p in
    let grown_memory = memory_demand-after fl ctx name before behind p in
    (
      fits_after _ (cpu_demand fl ctx name ctx.all_ships) _ _ _ old.0
          (new.0 ∙ ap (λ (d : ℕ). min d u64_max) grown_cpu) fits_cpu,
      fits_after _ (memory_demand fl ctx name ctx.all_ships) _ _ _ old.1
          (new.1 ∙ ap (λ (d : ℕ). min d u64_max) grown_memory) fits_memory,
    )
