-- ===== src/Scheduler/Examples.antt =====
-- The theorems on tugboat-scheduler at a small cluster: two nodes, a ship that waits and one that
-- runs, a claim that waits for its first consumer, and a server that grants every request.
mod Plugins
mod Election
use tugboat.Base.{
  ℕ, suc, ◌≡◌, refl, ◌⊎◌, inl, inr, ◌≢◌, ◌↔◌, unwrap_or, String, Bool, true, false, Option, none,
  some, List, [], ◌∷◌, ◌++◌, Memᴰ,
}
use mathlib.Core.List.Memᴰ
use tugboat.Base.Float.{F64, fractions}
use tugboat.Base.Int.{ℤ, pos, ◌+ℤ◌, ◌*ℤ◌, ◌-ℤ◌}
use tugboat.Base.Text.{trim, parse_u64}
use tugboat.Manifests.Labels.{
  NodeSelector, NodeSelectorTerm, NodeSelectorRequirement, LabelSelector,
}
use tugboat.Manifests.Meta.{meta_name, ObjectMeta, Time}
use tugboat.Manifests.Node.{Node, NodeSpec, NodeStatus, NodeResource, NodeCniPluginStatus}
use tugboat.Manifests.Ship.{
  Affinity, NodeAffinity, PreferredSchedulingTerm, ShipAntiAffinity, ShipAffinityTerm, Ship,
  ShipSpec, ShipClass, ShipClassSpec, CpuSpec, MemorySpec, TopologySpreadConstraint, ShipVolume,
  PersistentVolumeClaimVolumeSource, ShipCondition,
}
use tugboat.Manifests.Storage.{
  PersistentVolumeClaim, PersistentVolumeClaimSpec, StorageClass, StorageClassSpec,
}
use tugboat.Scheduler.Context.{
  SchedulingContext, node_resource_usage, requested_resources, ship_class_name,
  ship_persistent_volume_claims, find_storage_class, find_ship_class, ship_namespace,
  volume_of_claim, is_unbound_wffc_claim, ship_bound_persistent_volumes,
}
use tugboat.Scheduler.Cycle.Rounds.{
  IsPlaceable, binding_of, run_round-binds, run_round-IsBinding, schedule_ship-binds,
}
use tugboat.Scheduler.Selectors.{
  topology_selector_terms_match, node_selector_term_matches, label_selector_matches,
}
use tugboat.Scheduler.Plugins.Simple.{
  unschedulable, node_affinity, node_affinity_score, image_locality,
}
use tugboat.Scheduler.Plugins.Network.{network_fit, require_plugin_ready, resolve_network_class}
use tugboat.Scheduler.Plugins.Taints.{taint_toleration, taint_toleration_score}
use tugboat.Scheduler.Plugins.RuntimeClass.{runtime_class_fit}
use tugboat.Scheduler.Plugins.ResourceFit.{resource_fit, node_allocatable}
use tugboat.Scheduler.Plugins.LeastAllocated.{least_allocated}
use tugboat.Scheduler.Plugins.LeastAllocated
use tugboat.Scheduler.Plugins.Storage.{storage_fit, storage_binding_ready, volume_topology}
use tugboat.Scheduler.Plugins.ShipAffinity.{
  ship_affinity, matching_scheduled_ships, matches_required_affinity_term,
}
use tugboat.Scheduler.Plugins.TopologySpread.{
  topology_spread, topology_spread_score, ship_domain, skew_if_scheduled, topology_buckets,
}
use tugboat.Scheduler.Cycle.Binding.{IsBinding, schedule_ship-IsBinding}
use tugboat.Scheduler.Cycle.Claims.{NeedsNode}
use tugboat.Scheduler.Guarantees.{IsSuitable, run_round-IsSuitable}
use tugboat.Scheduler.Cycle.{
  Server, Request, ok, schedule_ship, bind_ship, claim_to_annotate, selected_node,
  missing_runtime_class, is_unscheduled, run_round, Cache, cached_ship_class, context_of,
}
use tugboat.Scheduler.Framework.{Framework, schedule}
use tugboat.Scheduler.Framework.Choice.{IsFirstBest, schedule-IsFirstBest, schedule-eq-none_iff}
use tugboat.Scheduler.Framework.Passes.{IsRejected}
use tugboat.Scheduler.Registry.{configured, default_filter_plugins, default_score_plugins}

abbrev pub meta : String → String → ObjectMeta
meta name zone = record {
  name = some name;
  namespace = some "default";
  uid = none;
  resource_version = none;
  creation_timestamp = none;
  deletion_timestamp = none;
  labels = ("zone", zone) ∷ [];
  annotations = [];
  owner_references = [];
  finalizers = [];
}

abbrev ready_plugin : String → NodeCniPluginStatus
ready_plugin name = record { name = name; ready = some true; message = "" }

abbrev pub node_of : String → String → ℕ → Node
node_of name zone cpu = record {
  object_meta = some (meta name zone);
  spec = some (record {
    overcommit = none;
    resource = some (record { cpu = cpu; memory = 4096 });
    taints = [];
    unschedulable = none;
  });
  status =
      some (record {
        cni_plugins = ready_plugin "loopback" ∷ ready_plugin "bridge" ∷ [];
        images = [];
      });
}

-- `node_b` has more room than `node_a`.
abbrev pub node_a : Node
node_a = node_of "node-a" "east" 2

abbrev pub node_b : Node
node_b = node_of "node-b" "west" 8

abbrev pub east_only : NodeSelectorTerm
east_only = record {
  match_expressions = record { key = "zone"; operator = "In"; values = "east" ∷ [] } ∷ [];
  match_fields = [];
}

abbrev pub east : NodeSelector
east = record { node_selector_terms = east_only ∷ [] }

abbrev pub spread : TopologySpreadConstraint
spread = record {
  max_skew = pos 1;
  topology_key = "zone";
  when_unsatisfiable = "DoNotSchedule";
  label_selector = some (record { match_labels = []; match_expressions = [] });
}

abbrev apart : ShipAffinityTerm
apart = record {
  label_selector = some (record { match_labels = []; match_expressions = [] });
  namespaces = [];
  topology_key = "zone";
}

abbrev pub preference : NodeAffinity
preference = record {
  required_during_scheduling = none;
  preferred_during_scheduling = record { weight = pos 30; preference = some east_only } ∷ [];
}

abbrev pub wishes : Affinity
wishes = record {
  node_affinity = some preference;
  ship_affinity = none;
  ship_anti_affinity = some (record { required_during_scheduling = apart ∷ [] });
}

abbrev spec_of : Option String → Option Affinity → ShipSpec
spec_of node_name affinity = record {
  image = "image";
  ship_class = "small";
  node_name = node_name;
  network_class_ref = [];
  tolerations = [];
  scheduler_name = none;
  volumes =
      record { name = "data"; persistent_volume_claim = some (record { claim_name = "data" }) }
      ∷ [];
  target_node_name = none;
  runtime_class = none;
  affinity = affinity;
  topology_spread_constraints = spread ∷ [];
}

abbrev ship_of : String → Option String → Option Affinity → Ship
ship_of name node_name affinity = record {
  object_meta = some (meta name "none");
  spec = some (spec_of node_name affinity);
  status = none;
}

-- One ship runs in the zone of `node_a`; the other waits.
abbrev pub running : Ship
running = ship_of "running" (some "node-a") none

abbrev pub waiting_spec : ShipSpec
waiting_spec = spec_of none (some wishes)

abbrev pub waiting : Ship
waiting = ship_of "waiting" none (some wishes)

abbrev pub small : ShipClass
small = record {
  object_meta = some (meta "small" "none");
  spec = some (record {
    cpu = some (record { architecture = "x86_64"; cores = 1 });
    memory = some (record { size = "1024" });
    migration = none;
  });
}

abbrev data_claim : PersistentVolumeClaim
data_claim = record {
  object_meta = some (meta "data" "none");
  spec = some (record { access_modes = []; storage_class_name = some "local"; volume_name = none });
}

abbrev local_storage : StorageClass
local_storage = record {
  object_meta = some (meta "local" "none");
  spec =
      some (record { volume_binding_mode = some "WaitForFirstConsumer"; allowed_topologies = [] });
}

abbrev pub cache : Cache
cache = record {
  cluster_network_classes = [];
  network_classes = [];
  runtime_classes = [];
  nodes = node_a ∷ node_b ∷ [];
  ships = running ∷ waiting ∷ [];
  ship_classes = small ∷ [];
  persistent_volume_claims = data_claim ∷ [];
  persistent_volumes = [];
  storage_classes = local_storage ∷ [];
}

abbrev pub ctx : SchedulingContext
ctx = context_of cache waiting small

abbrev pub fw : Framework
fw = configured fractions default_filter_plugins default_score_plugins

-- A server that grants everything; its state is the number of requests.
abbrev counter : Server
counter = record { World = ℕ; call = λ w request. (ok, suc w) }

abbrev noon : Time
noon = record { seconds = pos 43200; nanos = pos 0 }

pub picks_b : schedule fw ctx (node_a ∷ node_b ∷ []) ≡ some node_b
unfolding schedule configured unschedulable network_fit require_plugin_ready taint_toleration
    runtime_class_fit resource_fit node_allocatable node_resource_usage requested_resources trim
    parse_u64 storage_fit storage_binding_ready ship_persistent_volume_claims selected_node
    find_storage_class volume_topology node_affinity ship_affinity topology_spread
    topology_selector_terms_match ◌+ℤ◌ find_ship_class ship_namespace volume_of_claim
    taint_toleration_score least_allocated LeastAllocated.node_allocatable node_affinity_score
    node_selector_term_matches topology_spread_score image_locality ship_domain
    label_selector_matches skew_if_scheduled topology_buckets matching_scheduled_ships
    matches_required_affinity_term is_unbound_wffc_claim ship_bound_persistent_volumes ◌*ℤ◌ ◌-ℤ◌
    resolve_network_class
picks_b = refl

placeable : IsPlaceable fw cache waiting node_b
unfolding missing_runtime_class
placeable = record {
  ship_class = small;
  class_known = refl;
  runtime_class_known = refl;
  chosen = picks_b;
}

sent : Memᴰ (binding_of waiting node_b) (schedule_ship counter 0 noon fw cache waiting).0
sent = schedule_ship-binds counter (λ w request. refl) noon fw cache 0 waiting node_b placeable

run_round-binds_again :
    Memᴰ
      (binding_of waiting node_b)
      (run_round counter 0 noon fw "default-scheduler" true (some cache)).0
unfolding is_unscheduled
run_round-binds_again =
    run_round-binds counter 0 noon fw "default-scheduler" cache waiting node_b (λ w request. refl)
      (Memᴰ.tail (Memᴰ.head refl)) refl placeable

schedule-IsFirstBest_example : IsFirstBest fw ctx (node_a ∷ node_b ∷ []) node_b
schedule-IsFirstBest_example = schedule-IsFirstBest fw ctx (node_a ∷ node_b ∷ []) node_b picks_b

schedule-eq-none_iff_example :
    (schedule fw ctx (node_a ∷ []) ≡ none)
    ↔ ((node : Node) → Memᴰ node (node_a ∷ []) → IsRejected fw ctx node)
schedule-eq-none_iff_example = schedule-eq-none_iff fw ctx (node_a ∷ [])

schedule_ship-IsBinding_example :
    IsBinding fw cache waiting "default" "waiting" (bind_ship waiting "node-b")
schedule_ship-IsBinding_example =
    schedule_ship-IsBinding counter 0 noon fw cache waiting "default" "waiting"
      (bind_ship waiting "node-b") sent

data_claim-NeedsNode : NeedsNode ctx "node-b" data_claim "data"
unfolding find_storage_class
data_claim-NeedsNode = record {
  meta = meta "data" "none";
  has_meta = refl;
  named = refl;
  not_selected = λ e. absurd (cc);
  spec = record { access_modes = []; storage_class_name = some "local"; volume_name = none };
  has_spec = refl;
  unbound = inl refl;
  class_name = "local";
  has_class = refl;
  class_not_blank = λ e. absurd (cc);
  storage_class = local_storage;
  class_found = refl;
  class_spec = record {
    volume_binding_mode = some "WaitForFirstConsumer";
    allowed_topologies = [];
  };
  class_has_spec = refl;
  waits = refl;
}

run_round-binds_example :
    Memᴰ
      (binding_of waiting node_b)
      (run_round counter 0 noon fw "default-scheduler" true (some cache)).0
unfolding is_unscheduled
run_round-binds_example =
    run_round-binds counter 0 noon fw "default-scheduler" cache waiting node_b (λ w request. refl)
      (Memᴰ.tail (Memᴰ.head refl)) refl placeable

run_round-IsBinding_example :
    (c : Cache) × (ship : Ship) × (true ≡ true)
    × (some cache ≡ some c)
    × Memᴰ ship c.ships
    × (is_unscheduled "default-scheduler" ship ≡ true)
    × IsBinding fw c ship "default" "waiting" (bind_ship waiting "node-b")
run_round-IsBinding_example =
    run_round-IsBinding counter 0 noon fw "default-scheduler" true (some cache) "default" "waiting"
      (bind_ship waiting "node-b") run_round-binds_again

run_round-IsSuitable_example :
    (c : Cache) × (ship : Ship) × (sc : ShipClass) × (node : Node) × (some cache ≡ some c)
    × Memᴰ ship c.ships
    × (is_unscheduled "default-scheduler" ship ≡ true)
    × Memᴰ node c.nodes
    × (cached_ship_class c (ship_class_name ship) ≡ some sc)
    × (bind_ship waiting "node-b"
        ≡ bind_ship ship (unwrap_or (meta_name node.object_meta) "unknown"))
    × IsSuitable fractions (context_of c ship sc) node
run_round-IsSuitable_example =
    run_round-IsSuitable counter 0 noon fractions "default-scheduler" true (some cache) "default"
      "waiting" (bind_ship waiting "node-b") run_round-binds_again
