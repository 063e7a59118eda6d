-- ===== src/Scheduler/Plugins/ShipAffinity/Peers.antt =====
-- Which placed ships a term of tugboat-scheduler/src/plugins/ship_affinity.rs selects, and where they
-- run.
use tugboat.Base.{
  ◌≡◌, ◌≢◌, ◌⊎◌, refl, find, is_some_and, is_empty, unwrap_or, eq_iff, ◌==◌, if◌then◌else◌, String,
  true, some, List, [], ◌∷◌, Memᴰ, arith, Option-cases, inl, inr,
}
use tugboat.Base.Dict.{get}
use tugboat.Manifests.Meta.{ObjectMeta, meta_name, meta_namespace, is_named}
use tugboat.Manifests.Node.{Node}
use tugboat.Manifests.Ship.{Ship, ShipSpec, ShipAffinityTerm}
use tugboat.Scheduler.Context.{SchedulingContext, assigned_node, not_empty, ship_namespace}
use tugboat.Scheduler.Selectors.{contains, label_selector_matches}
use tugboat.Scheduler.Selectors.Labels.{Selects, matches→Selects, Selects→matches}
use tugboat.Scheduler.Selectors.Meaning.{contains-mem, mem-contains}
use tugboat.Scheduler.Plugins.ShipAffinity.{namespace_matches, is_matching_scheduled, peer_domain}

-- The term looks at ships of this namespace: of those that it lists, or of the own one if it lists
-- none.
abbrev pub InNamespaces : SchedulingContext → ShipAffinityTerm → String → Type 0
InNamespaces ctx term namespace =
    ((term.namespaces ≡ [])
      × (namespace ≡ unwrap_or (meta_namespace ctx.ship.object_meta) "default"))
    ⊎ Memᴰ namespace term.namespaces

-- The peer is placed, in a namespace that the term looks at, with labels that it selects.
pub record IsSelected (ctx : SchedulingContext) (term : ShipAffinityTerm) (peer : Ship)
    (node_name : String) : Type 0 where
  pub spec : ShipSpec
  pub has_spec : peer.spec ≡ some spec
  pub placed : spec.node_name ≡ some node_name
  pub placed_somewhere : node_name ≢ ""
  pub meta : ObjectMeta
  pub has_meta : peer.object_meta ≡ some meta
  pub in_namespace : InNamespaces ctx term (unwrap_or meta.namespace "default")
  pub labelled : Selects term.label_selector meta.labels

-- The node that the cluster has under this name has this label.
abbrev pub NodeHas : SchedulingContext → (node_name key value : String) → Type 0
NodeHas ctx node_name key value =
    (node : Node) × (meta : ObjectMeta) × (find
        (λ (n : Node). is_named (meta_name n.object_meta) node_name) ctx.all_nodes
      ≡ some node)
    × (node.object_meta ≡ some meta)
    × (get key meta.labels ≡ some value)

filled : (s : String) → not_empty s ≡ true → s ≢ ""
filled s h e = let k = rw e at h in cc

not_blank : (s : String) → s ≢ "" → not_empty s ≡ true
not_blank s h = ground (arith, eq_iff s "")

listed_in :
    (namespace own : String) (listed : List String)
    → (if is_empty listed then namespace == own else contains listed namespace) ≡ true
    → ((listed ≡ []) × (namespace ≡ own)) ⊎ Memᴰ namespace listed
listed_in namespace own [] h = inl (refl, (eq_iff namespace own).0 h)
listed_in namespace own (x ∷ xs) h = inr (contains-mem (x ∷ xs) namespace h)

in_listed :
    (namespace own : String) (listed : List String)
    → ((listed ≡ []) × (namespace ≡ own)) ⊎ Memᴰ namespace listed
    → (if is_empty listed then namespace == own else contains listed namespace) ≡ true
in_listed namespace own [] (inl (e, same)) = (eq_iff namespace own).1 same
in_listed namespace own [] (inr m) = elim m [ ]
in_listed namespace own (x ∷ xs) (inl (e, same)) = absurd (cc)
in_listed namespace own (x ∷ xs) (inr m) = mem-contains (x ∷ xs) namespace m

module _ (ctx : SchedulingContext) (term : ShipAffinityTerm) (peer : Ship) where
  in_namespaces :
      (meta : ObjectMeta)
      → peer.object_meta ≡ some meta
      → namespace_matches peer (ship_namespace ctx) term.namespaces ≡ true
      → InNamespaces ctx term (unwrap_or meta.namespace "default")
  unfolding ship_namespace
  in_namespaces meta e h = listed_in _ _ term.namespaces (rw e at h)

  namespaces_in :
      (meta : ObjectMeta)
      → peer.object_meta ≡ some meta
      → InNamespaces ctx term (unwrap_or meta.namespace "default")
      → namespace_matches peer (ship_namespace ctx) term.namespaces ≡ true
  unfolding ship_namespace
  namespaces_in meta e place = rw e (in_listed _ _ term.namespaces place)

  pub matching→IsSelected :
      (node_name : String)
      → assigned_node peer ≡ some node_name
      → is_matching_scheduled ctx term peer ≡ true
      → IsSelected ctx term peer node_name
  matching→IsSelected node_name placed h = elim (Option-cases peer.spec) [
    | inl e ↦ absurd (let k = rw e at placed in cc)
    | inr (spec, e) ↦ elim (Option-cases peer.object_meta) [
      | inl f ↦ absurd (let k = rw (placed, f) at h in ground arith)
      | inr (meta, f) ↦
          let at_node : spec.node_name ≡ some node_name = rw e at placed in
          let somewhere : is_some_and (assigned_node peer) not_empty ≡ true = ground arith in
          let near : namespace_matches peer (ship_namespace ctx) term.namespaces ≡ true =
            ground arith in
          let chosen : is_some_and peer.object_meta
                (λ m. label_selector_matches term.label_selector m.labels)
              ≡ true =
            ground arith in
          record {
            spec = spec;
            has_spec = e;
            placed = at_node;
            placed_somewhere = filled node_name (rw placed at somewhere);
            meta = meta;
            has_meta = f;
            in_namespace = in_namespaces meta f near;
            labelled = matches→Selects meta.labels term.label_selector (rw f at chosen);
          }
    ]
  ]

  pub IsSelected→matching :
      (node_name : String)
      → IsSelected ctx term peer node_name
      → (assigned_node peer ≡ some node_name) × (is_matching_scheduled ctx term peer ≡ true)
  IsSelected→matching node_name s =
      let at_node : assigned_node peer ≡ some node_name = rw (s.has_spec, s.placed) refl in
      let somewhere : is_some_and (assigned_node peer) not_empty ≡ true =
        rw at_node (not_blank node_name s.placed_somewhere) in
      let near = namespaces_in s.meta s.has_meta s.in_namespace in
      let chosen : is_some_and peer.object_meta
            (λ m. label_selector_matches term.label_selector m.labels)
          ≡ true =
        rw s.has_meta (Selects→matches s.meta.labels term.label_selector s.labelled) in
      (at_node, ground (arith, somewhere, near, chosen))

  pub domain→NodeHas :
      (domain : String)
      → peer_domain ctx term peer ≡ some domain
      → (node_name : String) × (assigned_node peer ≡ some node_name)
        × NodeHas ctx node_name term.topology_key domain
  domain→NodeHas domain h = elim (Option-cases (assigned_node peer)) [
    | inl e ↦ absurd (let k = rw e at h in cc)
    | inr (node_name, e) ↦
        let found =
          find (λ (n : Node). is_named (meta_name n.object_meta) node_name) ctx.all_nodes in
        elim (Option-cases found) [
          | inl f ↦ absurd (let k = rw (e, f) at h in cc)
          | inr (node, f) ↦ elim (Option-cases node.object_meta) [
            | inl g ↦ absurd (let k = rw (e, f, g) at h in cc)
            | inr (meta, g) ↦ (node_name, e, (node, meta, f, g, rw (e, f, g) at h))
          ]
        ]
  ]

  pub NodeHas→domain :
      (node_name domain : String)
      → assigned_node peer ≡ some node_name
      → NodeHas ctx node_name term.topology_key domain
      → peer_domain ctx term peer ≡ some domain
  NodeHas→domain node_name domain e (node, meta, f, g, k) = rw (e, f, g) k
