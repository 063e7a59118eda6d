-- ===== src/Scheduler/Registry/Defaults.antt =====
-- What the plugin names of a configuration of tugboat-scheduler come to.
use tugboat.Base.{
  ◌≡◌, refl, ◌∙◌, ap, sym, String, some, List, [], ◌∷◌, ◌++◌, Memᴰ, Option-cases, filter_map, inl,
  inr, append-cons_one,
}
use mathlib.Core.List.{append-nil}
use tugboat.Base.Float.{F64}
use tugboat.Manifests.Node.{Node}
use tugboat.Scheduler.Context.{SchedulingContext}
use tugboat.Scheduler.Framework.{
  Framework, accept, new, add_filter_plugin, add_score_plugin, schedule,
}
use tugboat.Scheduler.Framework.Passes.{IsAccepted}
use tugboat.Scheduler.Framework.Choice.{schedule-IsFirstBest}
use tugboat.Scheduler.Registry.{
  default_filter_plugins, default_score_plugins, create_filter_plugin, create_score_plugin,
  add_filters, add_scorers, configured,
}
use tugboat.Scheduler.Plugins.Simple.{unschedulable, node_affinity}
use tugboat.Scheduler.Plugins.Network.{network_fit}
use tugboat.Scheduler.Plugins.Taints.{taint_toleration}
use tugboat.Scheduler.Plugins.ResourceFit.{resource_fit}
use tugboat.Scheduler.Plugins.RuntimeClass.{runtime_class_fit}
use tugboat.Scheduler.Plugins.Storage.{storage_fit, storage_binding_ready, volume_topology}
use tugboat.Scheduler.Plugins.ShipAffinity.{ship_affinity}
use tugboat.Scheduler.Plugins.TopologySpread.{topology_spread}

pub accepted_by_all :
    (fl : F64) (ctx : SchedulingContext) (node : Node)
    → IsAccepted (configured fl default_filter_plugins default_score_plugins) ctx node
    → (unschedulable ctx node ≡ accept)
      × (network_fit ctx node ≡ accept)
      × (taint_toleration ctx node ≡ accept)
      × (runtime_class_fit ctx node ≡ accept)
      × (resource_fit fl ctx node ≡ accept)
      × (storage_fit ctx node ≡ accept)
      × (storage_binding_ready ctx node ≡ accept)
      × (volume_topology ctx node ≡ accept)
      × (node_affinity ctx node ≡ accept)
      × (ship_affinity ctx node ≡ accept)
      × (topology_spread ctx node ≡ accept)
unfolding configured create_filter_plugin create_score_plugin add_filter_plugin add_score_plugin new
accepted_by_all fl ctx node each = (
  each _ (Memᴰ.head refl),
  each _ (Memᴰ.tail (Memᴰ.head refl)),
  each _ (Memᴰ.tail (Memᴰ.tail (Memᴰ.head refl))),
  each _ (Memᴰ.tail (Memᴰ.tail (Memᴰ.tail (Memᴰ.head refl)))),
  each _ (Memᴰ.tail (Memᴰ.tail (Memᴰ.tail (Memᴰ.tail (Memᴰ.head refl))))),
  each _ (Memᴰ.tail (Memᴰ.tail (Memᴰ.tail (Memᴰ.tail (Memᴰ.tail (Memᴰ.head refl)))))),
  each _ (Memᴰ.tail (Memᴰ.tail (Memᴰ.tail (Memᴰ.tail (Memᴰ.tail (Memᴰ.tail (Memᴰ.head refl))))))),
  each _ (
      Memᴰ.tail
        (Memᴰ.tail (Memᴰ.tail (Memᴰ.tail (Memᴰ.tail (Memᴰ.tail (Memᴰ.tail (Memᴰ.head refl)))))))),
  each _ (
      Memᴰ.tail (
        Memᴰ.tail (
          Memᴰ.tail (Memᴰ.tail (Memᴰ.tail (Memᴰ.tail (Memᴰ.tail (Memᴰ.tail (Memᴰ.head refl))))))))),
  each _ (
      Memᴰ.tail (
        Memᴰ.tail (
          Memᴰ.tail (
            Memᴰ.tail
              (Memᴰ.tail (Memᴰ.tail (Memᴰ.tail (Memᴰ.tail (Memᴰ.tail (Memᴰ.head refl)))))))))),
  each _ (
      Memᴰ.tail (
        Memᴰ.tail (
          Memᴰ.tail (
            Memᴰ.tail (
              Memᴰ.tail
                (Memᴰ.tail (Memᴰ.tail (Memᴰ.tail (Memᴰ.tail (Memᴰ.tail (Memᴰ.head refl))))))))))),
)

-- A node that the default configuration chooses is accepted by each of the eleven filter plugins:
-- the defaults leave none out.
pub schedule-accepted_by_all :
    (fl : F64) (ctx : SchedulingContext) (nodes : List Node) (node : Node)
    → schedule (configured fl default_filter_plugins default_score_plugins) ctx nodes ≡ some node
    → (unschedulable ctx node ≡ accept)
      × (network_fit ctx node ≡ accept)
      × (taint_toleration ctx node ≡ accept)
      × (runtime_class_fit ctx node ≡ accept)
      × (resource_fit fl ctx node ≡ accept)
      × (storage_fit ctx node ≡ accept)
      × (storage_binding_ready ctx node ≡ accept)
      × (volume_topology ctx node ≡ accept)
      × (node_affinity ctx node ≡ accept)
      × (ship_affinity ctx node ≡ accept)
      × (topology_spread ctx node ≡ accept)
schedule-accepted_by_all fl ctx nodes node h =
    accepted_by_all fl ctx node (schedule-IsFirstBest _ ctx nodes node h).accepted

module _ (fl : F64) where
  add_filters-eq :
      (fw : Framework) (names : List String)
      → (add_filters fl fw names).filter_plugins
          ≡ fw.filter_plugins ++ filter_map (create_filter_plugin fl) names
        × (add_filters fl fw names).score_plugins ≡ fw.score_plugins
  unfolding add_filters add_filter_plugin
  add_filters-eq fw [] = (sym (append-nil fw.filter_plugins), refl)
  add_filters-eq fw (name ∷ names) = elim (Option-cases (create_filter_plugin fl name)) [
    | inl e ↦ rw (e, add_filters, filter_map) (add_filters-eq fw names)
    | inr (plugin, e) ↦
        let (fs, ss) = add_filters-eq (add_filter_plugin fw plugin) names in
        (
          rw (e, add_filters, filter_map)
              (fs
                ∙ append-cons_one fw.filter_plugins (filter_map (create_filter_plugin fl) names)
                    plugin),
          rw (e, add_filters, filter_map) ss,
        )
  ]

  add_scorers-eq :
      (fw : Framework) (names : List String)
      → (add_scorers fl fw names).score_plugins
          ≡ fw.score_plugins ++ filter_map (create_score_plugin fl) names
        × (add_scorers fl fw names).filter_plugins ≡ fw.filter_plugins
  unfolding add_scorers add_score_plugin
  add_scorers-eq fw [] = (sym (append-nil fw.score_plugins), refl)
  add_scorers-eq fw (name ∷ names) = elim (Option-cases (create_score_plugin fl name)) [
    | inl e ↦ rw (e, add_scorers, filter_map) (add_scorers-eq fw names)
    | inr (plugin, e) ↦
        let (ss, fs) = add_scorers-eq (add_score_plugin fw plugin) names in
        (
          rw (e, add_scorers, filter_map)
              (ss
                ∙ append-cons_one fw.score_plugins (filter_map (create_score_plugin fl) names)
                    plugin),
          rw (e, add_scorers, filter_map) fs,
        )
  ]

-- The framework has the plugins of the names that the scheduler knows, in the order of the
-- configuration and as often as it names them; unknown names change nothing.
pub configured-eq :
    (fl : F64) (filters scorers : List String)
    → (configured fl filters scorers).filter_plugins ≡ filter_map (create_filter_plugin fl) filters
      × (configured fl filters scorers).score_plugins ≡ filter_map (create_score_plugin fl) scorers
unfolding configured new
configured-eq fl filters scorers =
    let (fs, unchanged) = add_filters-eq fl new filters in
    let (ss, kept) = add_scorers-eq fl (add_filters fl new filters) scorers in
    (kept ∙ fs, ss ∙ ap (λ l. l ++ filter_map (create_score_plugin fl) scorers) unchanged)
