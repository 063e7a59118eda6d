-- ===== src/Scheduler/Plugins/TopologySpread.antt =====
-- tugboat-scheduler/src/plugins/topology_spread.rs: keeps the ships of a constraint spread over the
-- values of a node label, the domains. Counts of ships are not negative: they are numbers here.
pub mod Skew
pub mod Counting
use tugboat.Base.{
  ℕ, zero, suc, ◌+◌, ◌*◌, String, Bool, true, false, not, Option, none, some, List, [], ◌∷◌, ◌>>=◌,
  min, is_some_and, keep_if, unwrap_or, is_empty, ◌==◌, if◌then◌else◌,
}
use tugboat.Base.Dict.{Dict, get, insert}
use tugboat.Base.Int.{ℤ, pos, sub_ℕ, ◌+ℤ◌, ◌-ℤ◌, ◌*ℤ◌, ltb_ℤ, clamp_ℤ, div_ℤ}
use tugboat.Manifests.Meta.{meta_name}
use tugboat.Manifests.Node.{Node}
use tugboat.Manifests.Ship.{Ship, TopologySpreadConstraint}
use tugboat.Scheduler.Context.{SchedulingContext, assigned_node, not_empty}
use tugboat.Scheduler.Selectors.{label_selector_matches}
use tugboat.Scheduler.Framework.{
  FilterPlugin, FilterResult, accept, reject, ScorePlugin, ScoreResult, score, skip,
  spread_key_missing, exceeds_max_skew,
}

abbrev pub node_domain : TopologySpreadConstraint → Node → Option String
node_domain constraint node = do meta ← node.object_meta; get constraint.topology_key meta.labels

-- `buckets.entry(value).or_insert(0)`, and the same with `+= 1`.
abbrev or_insert_zero : String → Dict ℕ → Dict ℕ
or_insert_zero value buckets = insert value (unwrap_or (get value buckets) 0) buckets

abbrev add_one : String → Dict ℕ → Dict ℕ
add_one value buckets = insert value (suc (unwrap_or (get value buckets) 0)) buckets

-- The nodes by name; of two with one name the later counts.
node_map_from : Dict Node → List Node → Dict Node
node_map_from nodes [] = nodes
node_map_from nodes (node ∷ more) =
    node_map_from
      (elim (meta_name node.object_meta) [ none ↦ nodes | some name ↦ insert name node nodes ]) more

unfoldable pub node_map : SchedulingContext → Dict Node
unfolding node_map_from
node_map ctx = node_map_from [] ctx.all_nodes

pub domains_from : TopologySpreadConstraint → Dict ℕ → List Node → Dict ℕ
domains_from constraint buckets [] = buckets
domains_from constraint buckets (node ∷ nodes) =
    domains_from constraint
      (elim (node_domain constraint node) [ none ↦ buckets | some v ↦ or_insert_zero v buckets ])
      nodes

-- The domain that a ship counts for: it has a node, its labels match, and the node has the key.
unfoldable pub ship_domain : SchedulingContext → TopologySpreadConstraint → Ship → Option String
unfolding node_map
ship_domain ctx constraint ship = do
  node_name ← keep_if not_empty (assigned_node ship)
  matching ←
      keep_if (λ meta. label_selector_matches constraint.label_selector meta.labels)
        ship.object_meta
  node ← get node_name (node_map ctx)
  node_domain constraint node

pub ships_from : SchedulingContext → TopologySpreadConstraint → Dict ℕ → List Ship → Dict ℕ
ships_from ctx constraint buckets [] = buckets
ships_from ctx constraint buckets (ship ∷ ships) =
    ships_from ctx constraint
      (elim (ship_domain ctx constraint ship) [ none ↦ buckets | some v ↦ add_one v buckets ]) ships

unfoldable pub topology_buckets : SchedulingContext → TopologySpreadConstraint → Dict ℕ
unfolding domains_from ships_from
topology_buckets ctx constraint =
    ships_from ctx constraint (domains_from constraint [] ctx.all_nodes) ctx.all_ships

-- `buckets.values().min()`.
pub min_count : Dict ℕ → Option ℕ
min_count [] = none
min_count ((v, n) ∷ m) = elim (min_count m) [ none ↦ some n | some k ↦ some (min n k) ]

pub skew_in : Dict ℕ → String → Option ℤ
skew_in [] value = none
skew_in (entry ∷ more) value =
    let buckets = add_one value (entry ∷ more) in
    some (sub_ℕ (unwrap_or (get value buckets) 0) (unwrap_or (min_count buckets) 0))

unfoldable pub skew_if_scheduled : SchedulingContext → Node → TopologySpreadConstraint → Option ℤ
unfolding topology_buckets min_count skew_in
skew_if_scheduled ctx node constraint = do
  value ← node_domain constraint node
  skew_in (topology_buckets ctx constraint) value

pub constraint_loop : SchedulingContext → Node → List TopologySpreadConstraint → FilterResult
constraint_loop ctx node [] = accept
constraint_loop ctx node (constraint ∷ more) =
    let rest = constraint_loop ctx node more in
    if not (constraint.when_unsatisfiable == "DoNotSchedule")
    then rest
    else elim (skew_if_scheduled ctx node constraint) [
      | none ↦ reject (spread_key_missing constraint.topology_key)
      | some skew ↦
          if ltb_ℤ constraint.max_skew skew
          then reject (exceeds_max_skew constraint.topology_key constraint.max_skew)
          else rest
    ]

unfoldable pub topology_spread : SchedulingContext → Node → FilterResult
unfolding constraint_loop
topology_spread ctx node = elim ctx.ship.spec [
  | none ↦ accept
  | some spec ↦ constraint_loop ctx node spec.topology_spread_constraints
]

-- `(100 - over * 50).clamp(0, 100)` for `over = skew - max_skew`. Both are far from the bounds of
-- i64, since a skew is at most the number of ships and max_skew is an i32.
abbrev pub spread_points : TopologySpreadConstraint → Option ℤ → ℤ
spread_points constraint none = pos 0
spread_points constraint (some skew) =
    clamp_ℤ (pos 0) (pos 100) (pos 100 -ℤ (skew -ℤ constraint.max_skew) *ℤ pos 50)

-- The loop's `(total, count)`.
pub points_loop : SchedulingContext → Node → ℤ × ℕ → List TopologySpreadConstraint → ℤ × ℕ
points_loop ctx node sums [] = sums
points_loop ctx node (total, count) (constraint ∷ more) =
    points_loop ctx node
      (total +ℤ spread_points constraint (skew_if_scheduled ctx node constraint), suc count) more

mean_points : ℤ × ℕ → ScoreResult
mean_points (total, zero) = skip
mean_points (total, suc count) = score (div_ℤ total (suc count))

unfoldable pub topology_spread_score : SchedulingContext → Node → ScoreResult
unfolding points_loop mean_points
topology_spread_score ctx node = elim ctx.ship.spec [
  | none ↦ skip
  | some spec ↦
      if is_empty spec.topology_spread_constraints
      then skip
      else mean_points (points_loop ctx node (pos 0, 0) spec.topology_spread_constraints)
]

abbrev pub topology_spread_filter : FilterPlugin
topology_spread_filter = record { name = "TopologySpread"; filter = topology_spread }

abbrev pub topology_spread_scorer : ScorePlugin
topology_spread_scorer = record { name = "TopologySpread"; score = topology_spread_score }
