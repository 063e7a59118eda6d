-- ===== src/Scheduler/Plugins/Network/Required.antt =====
-- What an acceptance of tugboat-scheduler/src/plugins/network_fit.rs says of the node.
use Prim.Native.Nat.{Ordering}
use Prim.Native.String.{compare}
use tugboat.Base.{
  ◌≡◌, refl, subst, String, true, none, some, List, [], ◌∷◌, Memᴰ, find, arith, Bool-cases,
  Option-cases, inl, inr, ◌⊎◌, each_cons, mem_of_any, eq_iff, ◌==◌,
}
use tugboat.Base.Results.{Result, ok, err, >>=-eq-ok}
use tugboat.Base.Text.{eq_ignore_ascii_case}
use tugboat.Manifests.Network.{NetworkClassSpec, ShipNetworkClassReference}
use tugboat.Manifests.Meta.{meta_name}
use tugboat.Manifests.Node.{Node, NodeStatus, NodeCniPluginStatus}
use tugboat.Scheduler.Context.{SchedulingContext}
use tugboat.Scheduler.Framework.{accept, Reason, unsupported_cni_plugin}
use tugboat.Scheduler.Plugins.Network.{
  insert_sorted, ResolvedNetworkClass, resolve_network_class, require_node_in_ready_nodes,
  normalized_plugin, wants_port_mappings, collect_required_plugins, require_plugin_ready,
  references_loop, plugins_loop, network_refs, network_check, as_filter_result, network_fit,
}

-- The node advertises the plugin, and its first entry for it is ready.
abbrev pub IsReady : List NodeCniPluginStatus → String → Type 0
IsReady statuses plugin =
    (status : NodeCniPluginStatus) × (find (λ s. s.name == plugin) statuses ≡ some status)
    × (status.ready ≡ some true)

-- The CNI plugins that a network class needs.
pub data Needs (spec : NetworkClassSpec) : String → Type 0 where
  bridge : eq_ignore_ascii_case (normalized_plugin spec) "bridge" ≡ true → Needs spec "bridge"
  flannel : eq_ignore_ascii_case (normalized_plugin spec) "flannel" ≡ true → Needs spec "flannel"
  flannel_bridge :
      eq_ignore_ascii_case (normalized_plugin spec) "flannel" ≡ true → Needs spec "bridge"
  portmap :
      eq_ignore_ascii_case (normalized_plugin spec) "flannel" ≡ true
      → wants_port_mappings spec ≡ true
      → Needs spec "portmap"

needs_elim :
    (spec : NetworkClassSpec) (P : String → Type 0)
    → (eq_ignore_ascii_case (normalized_plugin spec) "bridge" ≡ true → P "bridge")
    → (eq_ignore_ascii_case (normalized_plugin spec) "flannel" ≡ true → P "flannel" × P "bridge")
    → (eq_ignore_ascii_case (normalized_plugin spec) "flannel" ≡ true
        → wants_port_mappings spec ≡ true
        → P "portmap")
    → (p : String) → Needs spec p
    → P p
needs_elim spec P b f m p (bridge e) = b e
needs_elim spec P b f m p (flannel e) = (f e).0
needs_elim spec P b f m p (flannel_bridge e) = (f e).1
needs_elim spec P b f m p (portmap e g) = m e g

cases_on_order : (o : Ordering) → (o ≡ Ordering.lt) ⊎ ((o ≡ Ordering.eq) ⊎ (o ≡ Ordering.gt))
cases_on_order Ordering.lt = inl refl
cases_on_order Ordering.eq = inr (inl refl)
cases_on_order Ordering.gt = inr (inr refl)

mem-insert_sorted_old :
    (p : String) (xs : List String) {q : String} → Memᴰ q xs → Memᴰ q (insert_sorted p xs)
unfolding insert_sorted
mem-insert_sorted_old p [] m = elim m [ ]
mem-insert_sorted_old p (x ∷ xs) m = elim (cases_on_order (compare p x)) [
  | inl e ↦ rw (e, insert_sorted) (Memᴰ.tail m)
  | inr (inl e) ↦ rw (e, insert_sorted) m
  | inr (inr e) ↦
      rw (e, insert_sorted)
        (elim m [
          | Memᴰ.head k ↦ Memᴰ.head k
          | Memᴰ.tail n ↦ Memᴰ.tail (mem-insert_sorted_old p xs n)
        ])
]

mem-insert_sorted : (p : String) (xs : List String) → Memᴰ p (insert_sorted p xs)
unfolding insert_sorted
mem-insert_sorted p [] = Memᴰ.head refl
mem-insert_sorted p (x ∷ xs) = elim (cases_on_order (compare p x)) [
  | inl e ↦ rw (e, insert_sorted) (Memᴰ.head refl)
  | inr (inl e) ↦
      let same : (p == x) ≡ true = rw e refl in
      rw (e, insert_sorted) (Memᴰ.head ((eq_iff p x).0 same))
  | inr (inr e) ↦ rw (e, insert_sorted) (Memᴰ.tail (mem-insert_sorted p xs))
]

abbrev Collects : List String → NetworkClassSpec → List String → Type 0
Collects required spec more =
    ((p : String) → Memᴰ p required → Memᴰ p more) × ((p : String) → Needs spec p → Memᴰ p more)

-- What flannel asks for, but its port mappings.
abbrev with_flannel : List String → List String
with_flannel required = insert_sorted "flannel" (insert_sorted "bridge" required)

old-with_flannel :
    (required : List String) {q : String} → Memᴰ q required → Memᴰ q (with_flannel required)
old-with_flannel required m =
    mem-insert_sorted_old "flannel" (insert_sorted "bridge" required)
      (mem-insert_sorted_old "bridge" required m)

bridge-with_flannel : (required : List String) → Memᴰ "bridge" (with_flannel required)
bridge-with_flannel required =
    mem-insert_sorted_old "flannel" (insert_sorted "bridge" required)
      (mem-insert_sorted "bridge" required)

bridge_is_not_flannel :
    (s : String)
    → eq_ignore_ascii_case s "bridge" ≡ true
    → eq_ignore_ascii_case s "flannel" ≡ true
    → ⊥
unfolding eq_ignore_ascii_case
bridge_is_not_flannel String.[] h k = absurd (cc)
bridge_is_not_flannel (String.◌∷◌ c s) h k = ground arith

collect-Collects :
    (required : List String) (spec : NetworkClassSpec) (r : ShipNetworkClassReference)
    (more : List String)
    → collect_required_plugins required spec r ≡ ok more
    → Collects required spec more
unfolding collect_required_plugins
collect-Collects required spec r more h =
    elim (Bool-cases (eq_ignore_ascii_case (normalized_plugin spec) "bridge")) [
      | inl e ↦
          let same : ok (insert_sorted "bridge" required) ≡ ok more =
            rw (e, collect_required_plugins) at h in
          let same' : insert_sorted "bridge" required ≡ more = cc in
          subst (Collects required spec) same' (
            λ p m. mem-insert_sorted_old "bridge" required m,
            needs_elim spec (λ p. Memᴰ p (insert_sorted "bridge" required))
                (λ k. mem-insert_sorted "bridge" required)
                (λ f. absurd (bridge_is_not_flannel _ e f))
                (λ f g. absurd (bridge_is_not_flannel _ e f)),
          )
      | inr e ↦ elim (Bool-cases (eq_ignore_ascii_case (normalized_plugin spec) "flannel")) [
        | inl f ↦ elim (Bool-cases (wants_port_mappings spec)) [
          | inl g ↦
              let same : ok (insert_sorted "portmap" (with_flannel required)) ≡ ok more =
                rw (e, f, g, collect_required_plugins) at h in
              let same' : insert_sorted "portmap" (with_flannel required) ≡ more = cc in
              let old = λ (p : String) (m : Memᴰ p (with_flannel required)).
                mem-insert_sorted_old "portmap" (with_flannel required) m in
              subst (Collects required spec) same' (
                λ p m. old p (old-with_flannel required m),
                needs_elim spec (λ p. Memᴰ p (insert_sorted "portmap" (with_flannel required)))
                    (λ k. absurd (bridge_is_not_flannel _ k f))
                    (λ k. (
                      old "flannel" (mem-insert_sorted "flannel" (insert_sorted "bridge" required)),
                      old "bridge" (bridge-with_flannel required),
                    ))
                    (λ k l. mem-insert_sorted "portmap" (with_flannel required)),
              )
          | inr g ↦
              let same : ok (with_flannel required) ≡ ok more =
                rw (e, f, g, collect_required_plugins) at h in
              let same' : with_flannel required ≡ more = cc in
              subst (Collects required spec) same' (
                λ p m. old-with_flannel required m,
                needs_elim spec (λ p. Memᴰ p (with_flannel required))
                    (λ k. absurd (bridge_is_not_flannel _ k f))
                    (λ k. (
                      mem-insert_sorted "flannel" (insert_sorted "bridge" required),
                      bridge-with_flannel required,
                    ))
                    (λ k l. absurd (cc)),
              )
        ]
        | inr f ↦ absurd (
            let wrong : err (unsupported_cni_plugin r.name (normalized_plugin spec)) ≡ ok more =
              rw (e, f, collect_required_plugins) at h in
            cc)
      ]
    ]

-- What holds of a reference that passed.
abbrev pub Provides : SchedulingContext → Node → List String → ShipNetworkClassReference → Type 0
Provides ctx node plugins r =
    (c : ResolvedNetworkClass) × (resolve_network_class ctx r ≡ ok c)
    × (require_node_in_ready_nodes node c r ≡ ok tt)
    × ((p : String) → Needs c.spec p → Memᴰ p plugins)

references_loop-Provides :
    (ctx : SchedulingContext) (node : Node) (required : List String)
    (refs : List ShipNetworkClassReference) (plugins : List String)
    → references_loop ctx node required refs ≡ ok plugins
    → ((p : String) → Memᴰ p required → Memᴰ p plugins)
      × ((r : ShipNetworkClassReference) → Memᴰ r refs → Provides ctx node plugins r)
unfolding references_loop
references_loop-Provides ctx node required [] plugins h =
    let same : required ≡ plugins = cc in (λ p m. subst (Memᴰ p) same m, λ r m. elim m [ ])
references_loop-Provides ctx node required (r ∷ refs) plugins h =
    let (c, resolved, h1) = >>=-eq-ok (resolve_network_class ctx r) _ h in
    let (more, collected, h2) = >>=-eq-ok (collect_required_plugins required c.spec r) _ h1 in
    let (u, listed, h3) = >>=-eq-ok (require_node_in_ready_nodes node c r) _ h2 in
    let (kept, needed) = collect-Collects required c.spec r more collected in
    let (on, rest) = references_loop-Provides ctx node more refs plugins h3 in
    (
      λ p m. on p (kept p m),
      each_cons (Provides ctx node plugins) refs (c, resolved, listed, λ p n. on p (needed p n))
          rest,
    )

require-IsReady :
    (statuses : List NodeCniPluginStatus) (p : String)
    → require_plugin_ready statuses p ≡ ok tt
    → IsReady statuses p
unfolding require_plugin_ready
require-IsReady statuses p h = elim (Option-cases (find (λ s. s.name == p) statuses)) [
  | inl e ↦ absurd (ground arith)
  | inr (status, e) ↦ (status, e, ground arith)
]

plugins_loop-IsReady :
    (statuses : List NodeCniPluginStatus) (plugins : List String)
    → plugins_loop statuses plugins ≡ ok tt
    → (p : String) → Memᴰ p plugins
    → IsReady statuses p
unfolding plugins_loop
plugins_loop-IsReady statuses [] h p m = elim m [ ]
plugins_loop-IsReady statuses (q ∷ qs) h p m =
    let (u, ready, rest) = >>=-eq-ok (require_plugin_ready statuses q) _ h in
    each_cons (IsReady statuses) qs (require-IsReady statuses q ready)
      (plugins_loop-IsReady statuses qs rest) p m

accepted_ok : (m : Result Reason (Unit {0})) → as_filter_result m ≡ accept → m ≡ ok tt
accepted_ok (ok _) h = refl
accepted_ok (err reason) h = absurd (cc)

-- The class has no status yet, or its status lists the node.
abbrev pub IsListed : Node → ResolvedNetworkClass → Type 0
IsListed node c =
    (c.ready_nodes ≡ none)
    ⊎ ((names : List String) × (name : String) × (c.ready_nodes ≡ some names)
        × (meta_name node.object_meta ≡ some name)
        × Memᴰ name names)

ready-IsListed :
    (node : Node) (c : ResolvedNetworkClass) (r : ShipNetworkClassReference)
    → require_node_in_ready_nodes node c r ≡ ok tt
    → IsListed node c
unfolding require_node_in_ready_nodes
ready-IsListed node c r h = elim (Option-cases c.ready_nodes) [
  | inl e ↦ inl e
  | inr (names, e) ↦ elim (Option-cases (meta_name node.object_meta)) [
    | inl f ↦ absurd (ground arith)
    | inr (name, f) ↦
        let (other, m, k) = mem_of_any (λ ready. ready == name) names (ground arith) in
        inr (names, name, e, f, subst (λ n. Memᴰ n names) ((eq_iff other name).0 k) m)
  ]
]

-- If the filter accepts a node, then the node has a status whose CNI plugins are ready: "loopback",
-- and whatever a network class of the ship needs; and every network class that the ship refers to
-- was found, and either has no status or lists the node as ready.
pub network_fit-provides :
    (ctx : SchedulingContext) (node : Node)
    → network_fit ctx node ≡ accept
    → (status : NodeStatus) × (node.status ≡ some status)
      × IsReady status.cni_plugins "loopback"
      × ((r : ShipNetworkClassReference)
          → Memᴰ r (network_refs ctx.ship)
          → (c : ResolvedNetworkClass) × (resolve_network_class ctx r ≡ ok c)
            × IsListed node c
            × ((p : String) → Needs c.spec p → IsReady status.cni_plugins p))
unfolding network_fit network_check
network_fit-provides ctx node h = elim (Option-cases node.status) [
  | inl e ↦ absurd (ground arith)
  | inr (status, e) ↦
      let k : network_check ctx node status.cni_plugins ≡ ok tt =
        accepted_ok (network_check ctx node status.cni_plugins) (rw (e, network_fit) at h) in
      let (plugins, found, ready) =
        >>=-eq-ok (references_loop ctx node ("loopback" ∷ []) (network_refs ctx.ship)) _ k in
      let (kept, each) =
        references_loop-Provides ctx node ("loopback" ∷ []) (network_refs ctx.ship) plugins found in
      let up = plugins_loop-IsReady status.cni_plugins plugins ready in
      (
        status,
        e,
        up "loopback" (kept "loopback" (Memᴰ.head refl)),
        λ r m.
            let (c, a, b, n) = each r m in (c, a, ready-IsListed node c r b, λ p q. up p (n p q)),
      )
]
