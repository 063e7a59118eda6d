-- ===== src/Scheduler/Context/Usage.antt =====
-- The usage of a node, of tugboat-scheduler/src/framework/types.rs, against exact sums.
use tugboat.Base.{
  ℕ, ◌+◌, ◌≤◌, ◌≡◌, refl, ◌∙◌, String, Option, none, some, List, [], ◌∷◌, min, arith, Bool-cases,
  inl, inr, if◌then◌else◌,
}
use tugboat.Base.Float.{F64}
use tugboat.Base.Text.{u64_max}
use tugboat.Manifests.Meta.{is_named}
use tugboat.Manifests.Ship.{Ship, ShipClass}
use tugboat.Scheduler.Context.{
  SchedulingContext, assigned_node, ship_class_name, find_ship_class, class_resources, add_class,
  usage_loop, node_resource_usage,
}

module _ (fl : F64) (ctx : SchedulingContext) where
  abbrev pub class_demand : Option ShipClass → ℕ × ℕ
  class_demand none = (0, 0)
  class_demand (some sc) = class_resources fl sc.spec

  -- What one ship takes of a node: what its class asks for, if it is assigned to the node.
  unfoldable pub demand : String → Ship → ℕ × ℕ
  demand node_name ship =
      if is_named (assigned_node ship) node_name
      then class_demand (find_ship_class ctx (ship_class_name ship))
      else (0, 0)

  -- The exact sums, which no machine integer bounds.
  unfoldable pub cpu_demand : String → List Ship → ℕ
  cpu_demand node_name [] = 0
  cpu_demand node_name (ship ∷ ships) = (demand node_name ship).0 + cpu_demand node_name ships

  unfoldable pub memory_demand : String → List Ship → ℕ
  memory_demand node_name [] = 0
  memory_demand node_name (ship ∷ ships) = (demand node_name ship).1 + memory_demand node_name ships

  round_usage : String → ℕ × ℕ → Ship → ℕ × ℕ
  round_usage node_name used ship =
      if is_named (assigned_node ship) node_name
      then add_class fl ctx used (find_ship_class ctx (ship_class_name ship))
      else used

  abbrev Adds : ℕ × ℕ → ℕ × ℕ → ℕ × ℕ → Type 0
  Adds used more total =
      (total.0 ≡ min (used.0 + more.0) u64_max) × (total.1 ≡ min (used.1 + more.1) u64_max)

  add_class-Adds :
      (used : ℕ × ℕ) (sc : Option ShipClass)
      → used.0 ≤ u64_max
      → used.1 ≤ u64_max
      → Adds used (class_demand sc) (add_class fl ctx used sc)
  unfolding add_class
  add_class-Adds used none h k = omega arith
  add_class-Adds used (some sc) h k = (refl, refl)

  round-Adds :
      (node_name : String) (used : ℕ × ℕ) (ship : Ship)
      → used.0 ≤ u64_max
      → used.1 ≤ u64_max
      → Adds used (demand node_name ship) (round_usage node_name used ship)
  unfolding round_usage demand
  round-Adds node_name used ship h k = elim (Bool-cases (is_named (assigned_node ship) node_name)) [
    | inl e ↦ rw e (add_class-Adds used _ h k)
    | inr e ↦ rw e (omega arith)
  ]

  usage_loop-Adds :
      (node_name : String) (used : ℕ × ℕ) (ships : List Ship)
      → used.0 ≤ u64_max
      → used.1 ≤ u64_max
      → Adds used
          (cpu_demand node_name ships, memory_demand node_name ships)
          (usage_loop fl ctx node_name used ships)
  unfolding usage_loop cpu_demand memory_demand round_usage
  usage_loop-Adds node_name used [] h k = omega arith
  usage_loop-Adds node_name used (ship ∷ ships) h k =
      let step = round-Adds node_name used ship h k in
      let rest =
        usage_loop-Adds node_name (round_usage node_name used ship) ships (omega arith)
          (omega arith) in
      (rest.0 ∙ omega arith, rest.1 ∙ omega arith)

  -- The saturating loop gives the exact sums of what the ships on the node ask for, cut off at
  -- u64::MAX.
  pub node_resource_usage-eq :
      (node_name : String)
      → (node_resource_usage fl ctx node_name).0 ≡ min (cpu_demand node_name ctx.all_ships) u64_max
        × (node_resource_usage fl ctx node_name).1
          ≡ min (memory_demand node_name ctx.all_ships) u64_max
  unfolding node_resource_usage
  node_resource_usage-eq node_name =
      let total = usage_loop-Adds node_name (0, 0) ctx.all_ships (omega arith) (omega arith) in
      (total.0 ∙ omega arith, total.1 ∙ omega arith)
