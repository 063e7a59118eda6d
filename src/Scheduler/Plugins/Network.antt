-- ===== src/Scheduler/Plugins/Network.antt =====
-- tugboat-scheduler/src/plugins/network_fit.rs: the CNI plugins that the ship's networks need.
pub mod Required
use Prim.Native.Nat.{Ordering}
use Prim.Native.String.{compare}
use Prim.Native.String
use tugboat.Base.{
  String, Bool, true, false, not, ◌&&◌, Option, none, some, List, [], ◌∷◌, any, find, is_empty,
  unwrap_or, ◌==◌, if◌then◌else◌,
}
use Prim.Native.String
use tugboat.Base.Results.{Result, ok, err, ◌>>=◌, ◌>>◌, ok_or}
use Prim.Native.String
use tugboat.Base.Text.{trim, is_blank, eq_ignore_ascii_case}
use tugboat.Manifests.Meta.{meta_name}
use tugboat.Manifests.Network.{NetworkClassSpec, ShipNetworkClassReference, NetworkClassStatus}
use tugboat.Manifests.Node.{Node, NodeCniPluginStatus}
use tugboat.Manifests.Ship.{Ship}
use tugboat.Scheduler.Context.{
  SchedulingContext, find_cluster_network_class, find_network_class, ship_namespace,
}
use tugboat.Scheduler.Framework
use tugboat.Scheduler.Framework.{
  FilterPlugin, FilterResult, accept, reject, Reason, no_network_status, unsupported_api_group,
  cluster_network_class_not_found, network_class_not_found, unsupported_kind, no_ready_nodes,
  no_metadata_name, not_ready_on_node, unsupported_cni_plugin, plugin_not_advertised,
  plugin_not_ready_message,
}
use mathlib.Core.Option

-- `BTreeSet::insert`: the list is in ascending order.
insert_sorted : String → List String → List String
insert_sorted p [] = p ∷ []
insert_sorted p (x ∷ xs) =
    let rest = insert_sorted p xs in
    elim (compare p x) [ Ordering.lt ↦ p ∷ x ∷ xs | Ordering.eq ↦ x ∷ xs | Ordering.gt ↦ x ∷ rest ]

pub record ResolvedNetworkClass : Type 0 where
  pub spec : NetworkClassSpec
  pub ready_nodes : Option (List String)

network_class_ref_name : SchedulingContext → ShipNetworkClassReference → String
network_class_ref_name ctx r =
    if r.kind == "NetworkClass"
    then String.◌++◌ (ship_namespace ctx) (String.◌++◌ "/" r.name)
    else r.name

-- A class with a spec, and the nodes of its status if it has one.
abbrev resolved : Option NetworkClassSpec → Option NetworkClassStatus → Option ResolvedNetworkClass
resolved none status = none
resolved (some spec) status =
    some (record { spec = spec; ready_nodes = Option.map (λ s. s.ready_nodes) status })

unfoldable pub resolve_network_class :
    SchedulingContext → ShipNetworkClassReference → Result Reason ResolvedNetworkClass
unfolding network_class_ref_name
resolve_network_class ctx r =
    if not (r.api_group == "core") && not (is_blank r.api_group)
    then err (unsupported_api_group (network_class_ref_name ctx r) r.api_group)
    else if r.kind == "ClusterNetworkClass"
    then ok_or (Option.bind (find_cluster_network_class ctx r.name) (λ c. resolved c.spec c.status))
        (cluster_network_class_not_found r.name)
    else if r.kind == "NetworkClass"
    then ok_or
        (Option.bind (find_network_class ctx (ship_namespace ctx) r.name)
          (λ c. resolved c.spec c.status))
        (network_class_not_found (ship_namespace ctx) r.name)
    else err (unsupported_kind (network_class_ref_name ctx r) r.kind)

abbrev listed : String → List String → Bool
listed node_name = any (λ ready. ready == node_name)

unfoldable pub require_node_in_ready_nodes :
    Node → ResolvedNetworkClass → ShipNetworkClassReference → Result Reason (Unit {0})
require_node_in_ready_nodes node network_class r = elim network_class.ready_nodes [
  | none ↦ ok tt
  | some ready_nodes ↦
      if is_empty ready_nodes
      then err (no_ready_nodes r.name)
      else elim (meta_name node.object_meta) [
        | none ↦ err no_metadata_name
        | some node_name ↦
            if listed node_name ready_nodes then ok tt else err (not_ready_on_node r.name node_name)
      ]
]

abbrev pub normalized_plugin : NetworkClassSpec → String
normalized_plugin spec =
    let plugin = trim spec.cni_plugin in if is_blank plugin then "bridge" else plugin

abbrev pub wants_port_mappings : NetworkClassSpec → Bool
wants_port_mappings spec = unwrap_or (Option.bind spec.flannel (λ f. f.port_mappings)) false

unfoldable pub collect_required_plugins :
    List String → NetworkClassSpec → ShipNetworkClassReference → Result Reason (List String)
unfolding insert_sorted
collect_required_plugins required spec r =
    let plugin = normalized_plugin spec in
    if eq_ignore_ascii_case plugin "bridge"
    then ok (insert_sorted "bridge" required)
    else if eq_ignore_ascii_case plugin "flannel"
    then (let flannel = insert_sorted "flannel" (insert_sorted "bridge" required) in
        if wants_port_mappings spec then ok (insert_sorted "portmap" flannel) else ok flannel)
    else err (unsupported_cni_plugin r.name plugin)

unfoldable pub require_plugin_ready : List NodeCniPluginStatus → String → Result Reason (Unit {0})
require_plugin_ready statuses plugin = elim (find (λ s. s.name == plugin) statuses) [
  | none ↦ err (plugin_not_advertised plugin)
  | some status ↦
      if unwrap_or status.ready false
      then ok tt
      else if is_blank status.message
      then err (Framework.Reason.plugin_not_ready plugin)
      else err (plugin_not_ready_message plugin status.message)
]

-- The loop over the references, with the plugins required so far.
pub references_loop :
    SchedulingContext
    → Node
    → List String
    → List ShipNetworkClassReference
    → Result Reason (List String)
references_loop ctx node required [] = ok required
references_loop ctx node required (r ∷ refs) = do
  found ← resolve_network_class ctx r
  more ← collect_required_plugins required found.spec r
  require_node_in_ready_nodes node found r
  references_loop ctx node more refs

pub plugins_loop : List NodeCniPluginStatus → List String → Result Reason (Unit {0})
plugins_loop statuses [] = ok tt
plugins_loop statuses (plugin ∷ plugins) = do
  require_plugin_ready statuses plugin
  plugins_loop statuses plugins

abbrev pub network_refs : Ship → List ShipNetworkClassReference
network_refs ship = elim ship.spec [ none ↦ [] | some spec ↦ spec.network_class_ref ]

pub network_check : SchedulingContext → Node → List NodeCniPluginStatus → Result Reason (Unit {0})
network_check ctx node statuses = do
  required ← references_loop ctx node ("loopback" ∷ []) (network_refs ctx.ship)
  plugins_loop statuses required

abbrev pub as_filter_result : Result Reason (Unit {0}) → FilterResult
as_filter_result (ok _) = accept
as_filter_result (err reason) = reject reason

unfoldable pub network_fit : SchedulingContext → Node → FilterResult
unfolding network_check references_loop plugins_loop
network_fit ctx node = elim node.status [
  | none ↦ reject no_network_status
  | some status ↦ as_filter_result (network_check ctx node status.cni_plugins)
]

abbrev pub network_fit_filter : FilterPlugin
network_fit_filter = record { name = "NetworkFit"; filter = network_fit }
