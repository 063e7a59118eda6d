-- ===== src/Scheduler/Plugins/ShipAffinity.antt =====
-- tugboat-scheduler/src/plugins/ship_affinity.rs: ships that want, or do not want, to share a domain
-- with other ships.
pub mod Peers
pub mod Domains
use tugboat.Base.{
  String, Bool, true, false, not, ◌&&◌, Option, none, some, List, [], ◌∷◌, ◌>>=◌, any, find, filter,
  is_empty, is_some_and, unwrap_or, ◌==◌, if◌then◌else◌,
}
use tugboat.Base.Dict.{Dict, get}
use tugboat.Manifests.Meta.{meta_name, meta_namespace, meta_labels, is_named}
use tugboat.Manifests.Node.{Node}
use tugboat.Manifests.Ship.{Ship, ShipAffinityTerm, Affinity}
use tugboat.Scheduler.Context.{SchedulingContext, assigned_node, not_empty, ship_namespace}
use tugboat.Scheduler.Selectors.{contains, label_selector_matches}
use tugboat.Scheduler.Framework.{
  FilterPlugin, FilterResult, accept, reject, ship_affinity_not_satisfied,
  ship_anti_affinity_not_satisfied,
}

abbrev pub namespace_matches : Ship → String → List String → Bool
namespace_matches ship current_namespace namespaces =
    let namespace = unwrap_or (meta_namespace ship.object_meta) "default" in
    if is_empty namespaces then namespace == current_namespace else contains namespaces namespace

-- The test of `matching_scheduled_ships`.
abbrev pub is_matching_scheduled : SchedulingContext → ShipAffinityTerm → Ship → Bool
is_matching_scheduled ctx term ship =
    is_some_and (assigned_node ship) not_empty
    && namespace_matches ship (ship_namespace ctx) term.namespaces
    && is_some_and ship.object_meta (λ meta. label_selector_matches term.label_selector meta.labels)

abbrev pub node_label : String → Option Node → Option String
node_label key node = do n ← node; meta ← n.object_meta; get key meta.labels

-- The domain of the node that a peer is assigned to.
abbrev pub peer_domain : SchedulingContext → ShipAffinityTerm → Ship → Option String
peer_domain ctx term peer = do
  peer_node_name ← assigned_node peer
  node_label term.topology_key
      (find (λ node. is_named (meta_name node.object_meta) peer_node_name) ctx.all_nodes)

unfoldable pub matching_scheduled_ships : SchedulingContext → ShipAffinityTerm → List Ship
matching_scheduled_ships ctx term = filter (is_matching_scheduled ctx term) ctx.all_ships

unfoldable pub matches_required_affinity_term :
    SchedulingContext → ShipAffinityTerm → Dict String → Bool
matches_required_affinity_term ctx term candidate_labels =
    is_some_and (get term.topology_key candidate_labels) (λ candidate_value.
      any (λ peer. is_named (peer_domain ctx term peer) candidate_value)
        (matching_scheduled_ships ctx term))

affinity_loop :
    SchedulingContext → Dict String → List ShipAffinityTerm → FilterResult → FilterResult
affinity_loop ctx labels [] next = next
affinity_loop ctx labels (term ∷ terms) next =
    let rest = affinity_loop ctx labels terms next in
    if matches_required_affinity_term ctx term labels
    then rest
    else reject (ship_affinity_not_satisfied term.topology_key)

anti_affinity_loop : SchedulingContext → Dict String → List ShipAffinityTerm → FilterResult
anti_affinity_loop ctx labels [] = accept
anti_affinity_loop ctx labels (term ∷ terms) =
    let rest = anti_affinity_loop ctx labels terms in
    if matches_required_affinity_term ctx term labels
    then reject (ship_anti_affinity_not_satisfied term.topology_key)
    else rest

abbrev pub affinity_terms : Affinity → List ShipAffinityTerm
affinity_terms affinity = elim affinity.ship_affinity [
  | none ↦ []
  | some a ↦ a.required_during_scheduling
]

abbrev pub anti_affinity_terms : Affinity → List ShipAffinityTerm
anti_affinity_terms affinity = elim affinity.ship_anti_affinity [
  | none ↦ []
  | some a ↦ a.required_during_scheduling
]

abbrev pub ship_affinities : SchedulingContext → Option Affinity
ship_affinities ctx = do spec ← ctx.ship.spec; spec.affinity

unfoldable pub ship_affinity : SchedulingContext → Node → FilterResult
unfolding affinity_loop anti_affinity_loop
ship_affinity ctx node = elim (ship_affinities ctx) [
  | none ↦ accept
  | some affinity ↦
      let labels = meta_labels node.object_meta in
      affinity_loop ctx labels (affinity_terms affinity)
        (anti_affinity_loop ctx labels (anti_affinity_terms affinity))
]

abbrev pub ship_affinity_filter : FilterPlugin
ship_affinity_filter = record { name = "ShipAffinity"; filter = ship_affinity }
