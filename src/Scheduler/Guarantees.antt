-- ===== src/Scheduler/Guarantees.antt =====
-- What the parts of tugboat-scheduler promise together: every binding of a round that runs with the
-- default plugins of tugboat-scheduler/src/config.rs.
use tugboat.Base.{
  ◌≡◌, refl, sym, ◌-◌, ◌≤◌, String, Bool, true, Option, some, Memᴰ, unwrap_or, subst,
}
use mathlib.Core.List.Memᴰ
use tugboat.Base.Float.{F64}
use tugboat.Manifests.Labels.{NodeSelector}
use tugboat.Manifests.Meta.{Time, meta_labels, meta_name}
use tugboat.Manifests.Node.{Node, NodeStatus, Taint}
use tugboat.Manifests.Ship.{Ship, ShipClass}
use tugboat.Manifests.Storage.{PersistentVolume}
use tugboat.Scheduler.Context.{
  SchedulingContext, ship_class_name, node_resource_usage, requested_resources,
  ship_bound_persistent_volumes,
}
use tugboat.Scheduler.Cycle.{
  Server, replace_ship, Cache, cached_ship_class, context_of, bind_ship, is_unscheduled, run_round,
}
use tugboat.Scheduler.Cycle.Rounds.{run_round-IsBinding}
use tugboat.Scheduler.Framework.{accept}
use tugboat.Scheduler.Plugins.Network.Required.{IsReady, network_fit-provides}
use tugboat.Scheduler.Plugins.ResourceFit.{node_allocatable, node_name_or_unknown}
use tugboat.Scheduler.Plugins.ResourceFit.Capacity.{resource_fit-fits}
use tugboat.Scheduler.Plugins.Simple.{required_selector, unschedulable}
use tugboat.Scheduler.Plugins.Simple.Affinity.{node_affinity_iff}
use tugboat.Scheduler.Plugins.Storage.{volume_selector}
use tugboat.Scheduler.Plugins.Storage.Placement.{volume_topology-Satisfies}
use tugboat.Scheduler.Plugins.Taints.{node_taints, ship_tolerations}
use tugboat.Scheduler.Plugins.Taints.Meaning.{IsTolerated, taint_toleration_iff}
use tugboat.Scheduler.Registry.{configured, default_filter_plugins, default_score_plugins}
use tugboat.Scheduler.Registry.Defaults.{accepted_by_all}
use tugboat.Scheduler.Selectors.Meaning.{Satisfies}

-- The node has room and is willing to take the ship of the context.
pub record IsSuitable (fl : F64) (ctx : SchedulingContext) (node : Node) : Type 0 where
  pub schedulable : unschedulable ctx node ≡ accept
  pub cpu_left :
      (requested_resources fl ctx).0
      ≤ (node_allocatable fl node).0 - (node_resource_usage fl ctx (node_name_or_unknown node)).0
  pub memory_left :
      (requested_resources fl ctx).1
      ≤ (node_allocatable fl node).1 - (node_resource_usage fl ctx (node_name_or_unknown node)).1
  pub tolerated :
      (taint : Taint)
      → Memᴰ taint (node_taints node)
      → taint.effect ≡ "NoSchedule"
      → IsTolerated (ship_tolerations ctx.ship) taint
  pub selected :
      (selector : NodeSelector)
      → required_selector ctx ≡ some selector
      → Satisfies selector (meta_labels node.object_meta)
  pub loopback :
      (status : NodeStatus) × (node.status ≡ some status) × IsReady status.cni_plugins "loopback"
  pub volumes :
      (pv : PersistentVolume) (selector : NodeSelector)
      → Memᴰ pv (ship_bound_persistent_volumes ctx)
      → volume_selector pv ≡ some selector
      → Satisfies selector (meta_labels node.object_meta)

-- Every binding that a round with the default plugins sends is one of an unscheduled ship of the
-- refreshed cache to a node of that cache that is suitable for it, as the cache stood: the CPU and
-- memory are those of the class that the cache has under the name that the ship gives.
pub run_round-IsSuitable :
    (server : Server) (w : server.World) (now : Time) (fl : F64) (scheduler : String) (leads : Bool)
    (refreshed : Option Cache) (namespace name : String) (bound : Ship)
    → Memᴰ
        (replace_ship namespace name bound)
        (run_round server w now
          (configured fl default_filter_plugins default_score_plugins)
          scheduler
          leads
          refreshed).0
    → (cache : Cache) × (ship : Ship) × (sc : ShipClass) × (node : Node) × (refreshed ≡ some cache)
      × Memᴰ ship cache.ships
      × (is_unscheduled scheduler ship ≡ true)
      × Memᴰ node cache.nodes
      × (cached_ship_class cache (ship_class_name ship) ≡ some sc)
      × (bound ≡ bind_ship ship (unwrap_or (meta_name node.object_meta) "unknown"))
      × IsSuitable fl (context_of cache ship sc) node
run_round-IsSuitable server w now fl scheduler leads refreshed namespace name bound m =
    let fw = configured fl default_filter_plugins default_score_plugins in
    let (cache, ship, leading, fresh, known, waiting, b) =
      run_round-IsBinding server w now fw scheduler leads refreshed namespace name bound m in
    let ctx = context_of cache ship b.ship_class in
    let node = b.node in
    let (willing, network, taints, runtime, resources, shared, claims, topology, affinity, _, _) =
      accepted_by_all fl ctx node b.best.accepted in
    let (status, e, up, _) = network_fit-provides ctx node network in
    let (cpu, memory) = resource_fit-fits fl ctx node resources in
    (
      cache,
      ship,
      b.ship_class,
      node,
      fresh,
      known,
      waiting,
      subst (Memᴰ node) (sym b.best.split) (Memᴰ.append_right b.best.before (Memᴰ.head refl)),
      b.class_known,
      b.bound_to,
      record {
        schedulable = willing;
        cpu_left = cpu;
        memory_left = memory;
        tolerated = (taint_toleration_iff ctx node).0 taints;
        selected = (node_affinity_iff ctx node).0 affinity;
        loopback = (status, e, up);
        volumes = (volume_topology-Satisfies ctx node topology).0;
      },
    )
