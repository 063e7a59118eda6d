-- ===== src/Scheduler/Examples/Plugins.antt =====
-- The theorems on the plugins of tugboat-scheduler and on its conditions at the cluster of Examples.
use tugboat.Base.{
  suc, ◌+◌, ◌≤◌, min, ◌≡◌, refl, ◌⊎◌, ◌↔◌, String, true, none, some, List, [], ◌∷◌, Memᴰ,
  if◌then◌else◌, ◌==◌, ◌>>=◌,
}
use tugboat.Base.Float.{fractions}
use tugboat.Base.Int.{sub_ℕ, ◌≤ℤ◌}
use tugboat.Base.Results.{ok}
use tugboat.Base.Text.{u64_max, trim, parse_u64}
use tugboat.Manifests.Labels.{NodeSelector}
use tugboat.Manifests.Meta.{meta_labels}
use tugboat.Manifests.Network.{ShipNetworkClassReference}
use tugboat.Manifests.Node.{Node, NodeStatus, Taint}
use tugboat.Manifests.Ship.{
  ShipAffinityTerm, ShipCondition, ShipClass, ShipClassSpec, MigrationSpec,
}
use tugboat.Manifests.Storage.{PersistentVolume, PersistentVolumeClaim, StorageClassSpec}
use tugboat.Scheduler.Context.{
  SchedulingContext, node_resource_usage, requested_resources, find_ship_class, volume_of_claim,
  ship_namespace, ship_bound_persistent_volumes, ship_persistent_volume_claims,
  is_unbound_wffc_claim,
}
use tugboat.Scheduler.Context.Usage.{cpu_demand, memory_demand, node_resource_usage-eq}
use tugboat.Scheduler.Examples.{
  meta, small, node_a, node_b, east, spread, wishes, running, waiting_spec, ctx, picks_b,
}
use tugboat.Scheduler.Framework.{accept, reject, claim_not_shared}
use tugboat.Scheduler.Plugins.Network.{
  network_fit, network_refs, ResolvedNetworkClass, resolve_network_class,
}
use tugboat.Scheduler.Plugins.Network.Required.{IsReady, IsListed, Needs, network_fit-provides}
use tugboat.Scheduler.Plugins.ResourceFit.{resource_fit, node_allocatable}
use tugboat.Scheduler.Plugins.ResourceFit.Capacity.{after_binding, resource_fit-keeps_capacity}
use tugboat.Scheduler.Plugins.RuntimeClass.{runtime_class_fit}
use tugboat.Scheduler.Plugins.ShipAffinity.{ship_affinity, affinity_terms, anti_affinity_terms}
use tugboat.Scheduler.Plugins.ShipAffinity.Domains.{HasPeer, ship_affinity_iff}
use tugboat.Scheduler.Plugins.Simple.{unschedulable, node_affinity}
use tugboat.Scheduler.Plugins.Storage.{
  storage_fit, storage_binding_ready, volume_topology, volume_selector, class_spec_of,
  bound_pvc_pv_pairs,
}
use tugboat.Scheduler.Plugins.Storage.Placement.{
  volume_topology-Satisfies, storage_fit_iff, IsSharedClaim, IsSharedVolume,
}
use tugboat.Scheduler.Plugins.Taints.{taint_toleration, node_taints, ship_tolerations}
use tugboat.Scheduler.Plugins.Taints.Meaning.{IsTolerated, taint_toleration_iff}
use tugboat.Scheduler.Plugins.TopologySpread.{
  topology_buckets, ship_domain, topology_spread, node_domain,
}
use tugboat.Scheduler.Plugins.TopologySpread.Counting.{Tally, RunsIn, topology_buckets-Tally}
use tugboat.Scheduler.Plugins.TopologySpread.Skew.{bucket, ships_in, topology_spread-within_skew}
use tugboat.Scheduler.Registry.Defaults.{schedule-accepted_by_all}
use tugboat.Scheduler.Selectors.{
  label_selector_matches, node_selector_matches, topology_selector_terms_match,
}
use tugboat.Scheduler.Selectors.Meaning.{Satisfies, node_selector_matches_iff}

-- What the default plugins say of `node_b`.
accepted :
    (unschedulable ctx node_b ≡ accept)
    × (network_fit ctx node_b ≡ accept)
    × (taint_toleration ctx node_b ≡ accept)
    × (runtime_class_fit ctx node_b ≡ accept)
    × (resource_fit fractions ctx node_b ≡ accept)
    × (storage_fit ctx node_b ≡ accept)
    × (storage_binding_ready ctx node_b ≡ accept)
    × (volume_topology ctx node_b ≡ accept)
    × (node_affinity ctx node_b ≡ accept)
    × (ship_affinity ctx node_b ≡ accept)
    × (topology_spread ctx node_b ≡ accept)
accepted = schedule-accepted_by_all fractions ctx (node_a ∷ node_b ∷ []) node_b picks_b

schedule-accepted_by_all_example :
    (unschedulable ctx node_b ≡ accept)
    × (network_fit ctx node_b ≡ accept)
    × (taint_toleration ctx node_b ≡ accept)
    × (runtime_class_fit ctx node_b ≡ accept)
    × (resource_fit fractions ctx node_b ≡ accept)
    × (storage_fit ctx node_b ≡ accept)
    × (storage_binding_ready ctx node_b ≡ accept)
    × (volume_topology ctx node_b ≡ accept)
    × (node_affinity ctx node_b ≡ accept)
    × (ship_affinity ctx node_b ≡ accept)
    × (topology_spread ctx node_b ≡ accept)
schedule-accepted_by_all_example =
    schedule-accepted_by_all fractions ctx (node_a ∷ node_b ∷ []) node_b picks_b

node_resource_usage-eq_example :
    ((node_resource_usage fractions ctx "node-a").0
      ≡ min (cpu_demand fractions ctx "node-a" ctx.all_ships) u64_max)
    × ((node_resource_usage fractions ctx "node-a").1
        ≡ min (memory_demand fractions ctx "node-a" ctx.all_ships) u64_max)
node_resource_usage-eq_example = node_resource_usage-eq fractions ctx "node-a"

node_selector_matches_iff_example :
    (node_selector_matches east (("zone", "west") ∷ []) ≡ true)
    ↔ Satisfies east (("zone", "west") ∷ [])
node_selector_matches_iff_example = node_selector_matches_iff east (("zone", "west") ∷ [])

resource_accepted : resource_fit fractions ctx node_b ≡ accept
unfolding resource_fit node_allocatable node_resource_usage requested_resources trim parse_u64
resource_accepted = refl

resource_fit-keeps_capacity_example :
    (((node_resource_usage fractions (after_binding ctx "node-b" (running ∷ []) []) "node-b").0
        ≤ (node_allocatable fractions node_b).0)
      ⊎ ((node_resource_usage fractions (after_binding ctx "node-b" (running ∷ []) []) "node-b").0
          ≡ (node_resource_usage fractions ctx "node-b").0))
    × (((node_resource_usage fractions (after_binding ctx "node-b" (running ∷ []) []) "node-b").1
          ≤ (node_allocatable fractions node_b).1)
        ⊎ ((node_resource_usage fractions (after_binding ctx "node-b" (running ∷ []) []) "node-b").1
            ≡ (node_resource_usage fractions ctx "node-b").1))
unfolding find_ship_class
resource_fit-keeps_capacity_example =
    resource_fit-keeps_capacity fractions ctx node_b (running ∷ []) []
      (record {
        spec = waiting_spec;
        has_spec = refl;
        listed = refl;
        elsewhere = refl;
        class_found = refl;
      })
      resource_accepted

taint_toleration_iff_example : (taint_toleration ctx node_b ≡ accept) ↔ (
    (taint : Taint)
    → Memᴰ taint (node_taints node_b)
    → taint.effect ≡ "NoSchedule"
    → IsTolerated (ship_tolerations ctx.ship) taint)
taint_toleration_iff_example = taint_toleration_iff ctx node_b

topology_buckets-Tally_example :
    Tally (RunsIn ctx spread "east") ctx.all_ships (bucket "east" (topology_buckets ctx spread))
topology_buckets-Tally_example = topology_buckets-Tally ctx spread "east"

bucket_tests :
    (bucket "east" (topology_buckets ctx spread) ≡ 1)
    × (bucket "west" (topology_buckets ctx spread) ≡ 0)
unfolding topology_buckets ship_domain label_selector_matches
bucket_tests = (refl, refl)

topology_spread-within_skew_example :
    (v : String) × (node_domain spread node_b ≡ some v)
    × ((other : Node) (w : String)
        → Memᴰ other ctx.all_nodes
        → node_domain spread other ≡ some w
        → sub_ℕ
            (suc (ships_in spread ctx v ctx.all_ships))
            (ships_in spread ctx w ctx.all_ships + (if v == w then 1 else 0))
          ≤ℤ spread.max_skew)
topology_spread-within_skew_example =
    topology_spread-within_skew ctx node_b waiting_spec spread refl (Memᴰ.head refl) refl
      accepted.10

ship_affinity_iff_example : (ship_affinity ctx node_b ≡ accept) ↔ (
    ((term : ShipAffinityTerm)
      → Memᴰ term (affinity_terms wishes)
      → HasPeer ctx (meta_labels node_b.object_meta) term)
    × ((term : ShipAffinityTerm)
        → Memᴰ term (anti_affinity_terms wishes)
        → ¬ HasPeer ctx (meta_labels node_b.object_meta) term))
ship_affinity_iff_example = ship_affinity_iff ctx node_b wishes refl

network_fit-provides_example :
    (status : NodeStatus) × (node_b.status ≡ some status)
    × IsReady status.cni_plugins "loopback"
    × ((r : ShipNetworkClassReference)
        → Memᴰ r (network_refs ctx.ship)
        → (c : ResolvedNetworkClass) × (resolve_network_class ctx r ≡ ok c)
          × IsListed node_b c
          × ((p : String) → Needs c.spec p → IsReady status.cni_plugins p))
network_fit-provides_example = network_fit-provides ctx node_b accepted.1

volume_topology-Satisfies_example :
    ((pv : PersistentVolume) (selector : NodeSelector)
      → Memᴰ pv (ship_bound_persistent_volumes ctx)
      → volume_selector pv ≡ some selector
      → Satisfies selector (meta_labels node_b.object_meta))
    × ((pvc : PersistentVolumeClaim) (sc_spec : StorageClassSpec)
        → Memᴰ pvc (ship_persistent_volume_claims ctx)
        → is_unbound_wffc_claim ctx pvc ≡ true
        → (do spec ← pvc.spec; class_spec_of ctx spec) ≡ some sc_spec
        → topology_selector_terms_match sc_spec.allowed_topologies (meta_labels node_b.object_meta)
          ≡ true)
volume_topology-Satisfies_example = volume_topology-Satisfies ctx node_b accepted.7

-- The same cluster where the ship's class migrates its ships, and the claim is bound to a volume.
abbrev shared_claim : List String → PersistentVolumeClaim
shared_claim modes = record {
  object_meta = some (meta "data" "none");
  spec = some (record {
    access_modes = modes;
    storage_class_name = some "local";
    volume_name = some "volume";
  });
}

abbrev shared_volume : PersistentVolume
shared_volume = record {
  object_meta = some (meta "volume" "none");
  spec = some (record { access_modes = "ReadWriteMany" ∷ []; node_affinity = none });
}

abbrev migrating : ShipClass
migrating = record small {
  spec =
      some (record {
        cpu = none;
        memory = none;
        migration = some (record { postcopy_enabled = none });
      });
}

abbrev shared_ctx : List String → SchedulingContext
shared_ctx modes = record ctx {
  ship_class = migrating;
  all_persistent_volume_claims = shared_claim modes ∷ [];
  all_persistent_volumes = shared_volume ∷ [];
}

storage_tests :
    (storage_fit (shared_ctx ("ReadWriteMany" ∷ [])) node_b ≡ accept)
    × (storage_fit (shared_ctx []) node_b ≡ reject (claim_not_shared "data"))
unfolding storage_fit bound_pvc_pv_pairs volume_of_claim ship_persistent_volume_claims
    ship_namespace
storage_tests = (refl, refl)

storage_fit_iff_example :
    let shared = shared_ctx ("ReadWriteMany" ∷ []) in
    (storage_fit shared node_b ≡ accept) ↔ (
      (class_spec : ShipClassSpec) (policy : MigrationSpec)
      → shared.ship_class.spec ≡ some class_spec
      → class_spec.migration ≡ some policy
      → (pvc : PersistentVolumeClaim) (pv : PersistentVolume)
      → Memᴰ pvc (ship_persistent_volume_claims shared)
      → volume_of_claim shared pvc ≡ some pv
      → IsSharedClaim pvc × IsSharedVolume pv)
storage_fit_iff_example = storage_fit_iff (shared_ctx ("ReadWriteMany" ∷ [])) node_b

-- Two reports of one status, the second with another message.
abbrev blocked : String → ShipCondition
blocked message = record { status = "SchedulingBlocked"; message = message; timestamp = none }
