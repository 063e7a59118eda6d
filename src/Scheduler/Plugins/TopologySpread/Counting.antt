-- ===== src/Scheduler/Plugins/TopologySpread/Counting.antt =====
-- Which ships tugboat-scheduler/src/plugins/topology_spread.rs counts for a domain.
use tugboat.Base.{
  ◌>>=◌, ℕ, suc, ◌≡◌, ◌≢◌, ◌↔◌, refl, sym, ◌∙◌, ap, subst, inl, inr, String, Bool, true, false,
  some, List, [], ◌∷◌, ◌++◌, Memᴰ, arith, count, each_cons, eq_iff, ◌==◌, Bool-cases, Option-cases,
  ◌⊎◌, keep_if,
}
use text.Mathlib.TextPositions.{eq_refl}
use tugboat.Base.Dict.{Dict, get, insert, get-insert}
use tugboat.Manifests.Meta.{ObjectMeta, meta_name, is_named, is_named-eq}
use tugboat.Manifests.Node.{Node}
use tugboat.Manifests.Ship.{Ship, ShipSpec, TopologySpreadConstraint}
use tugboat.Scheduler.Context.{SchedulingContext, not_empty}
use tugboat.Scheduler.Selectors.{label_selector_matches}
use tugboat.Scheduler.Selectors.Labels.{Selects, matches→Selects, Selects→matches}
use tugboat.Scheduler.Plugins.TopologySpread.{
  node_domain, node_map, node_map_from, ship_domain, topology_buckets,
}
use tugboat.Scheduler.Plugins.TopologySpread.Skew.{bucket, topology_buckets-eq}

-- How many entries of a list have a property.
pub data Tally {ℓ κ} {A : Type ℓ} (P : A → Type κ) : List A → ℕ → Type (ℓ ⊔ κ) where
  nothing : Tally P [] 0
  counted : (x : A) (xs : List A) (n : ℕ) → P x → Tally P xs n → Tally P (x ∷ xs) (suc n)
  passed : (x : A) (xs : List A) (n : ℕ) → ¬ P x → Tally P xs n → Tally P (x ∷ xs) n

-- The last of the nodes with this name.
pub record IsLastNamed (nodes : List Node) (name : String) (node : Node) : Type 0 where
  pub before : List Node
  pub after : List Node
  pub split : nodes ≡ before ++ node ∷ after
  pub named : meta_name node.object_meta ≡ some name
  pub none_later : (other : Node) → Memᴰ other after → meta_name other.object_meta ≢ some name

-- The ship is placed, with labels that the constraint selects, on a node with this value of the
-- topology key.
pub record RunsIn (ctx : SchedulingContext) (constraint : TopologySpreadConstraint)
    (domain : String) (ship : Ship) : Type 0 where
  pub spec : ShipSpec
  pub has_spec : ship.spec ≡ some spec
  pub node_name : String
  pub placed : spec.node_name ≡ some node_name
  pub placed_somewhere : node_name ≢ ""
  pub meta : ObjectMeta
  pub has_meta : ship.object_meta ≡ some meta
  pub labelled : Selects constraint.label_selector meta.labels
  pub node : Node
  pub last : IsLastNamed ctx.all_nodes node_name node
  pub node_meta : ObjectMeta
  pub has_node_meta : node.object_meta ≡ some node_meta
  pub in_domain : get constraint.topology_key node_meta.labels ≡ some domain

module _ {ℓ κ} {A : Type ℓ} (P : A → Type κ) (p : A → Bool)
    (same : (a : A) → (p a ≡ true) ↔ P a) where
  count-Tally : (xs : List A) → Tally P xs (count p xs)
  count-Tally [] = nothing
  count-Tally (x ∷ xs) = elim (Bool-cases (p x)) [
    | inl e ↦ rw (e, count) (counted x xs (count p xs) ((same x).0 e) (count-Tally xs))
    | inr e ↦
        rw (e, count)
          (passed x xs (count p xs) (λ h. let k = (same x).1 h in absurd (cc)) (count-Tally xs))
  ]

module _ (name : String) where
  unnamed_keep :
      (d : Dict Node) (nodes : List Node)
      → ((n : Node) → Memᴰ n nodes → meta_name n.object_meta ≢ some name)
      → get name (node_map_from d nodes) ≡ get name d
  unfolding node_map_from
  unnamed_keep d [] h = refl
  unnamed_keep d (node ∷ nodes) h =
      let rest : (n : Node) → Memᴰ n nodes → meta_name n.object_meta ≢ some name =
        λ n m. h n (Memᴰ.tail m) in
      elim (Option-cases (meta_name node.object_meta)) [
        | inl e ↦ rw (e, node_map_from) (unnamed_keep d nodes rest)
        | inr (k, e) ↦
            let other : k ≢ name = λ same. h node (Memᴰ.head refl) (e ∙ ap (λ t. some t) same) in
            let apart : (k == name) ≡ false = ground (arith, eq_iff k name) in
            rw (e, node_map_from)
              (unnamed_keep (insert k node d) nodes rest ∙ get-insert k name node d ∙ rw apart refl)
      ]

  last_found :
      (d : Dict Node) (before : List Node) (node : Node) (after : List Node)
      → meta_name node.object_meta ≡ some name
      → ((n : Node) → Memᴰ n after → meta_name n.object_meta ≢ some name)
      → get name (node_map_from d (before ++ node ∷ after)) ≡ some node
  unfolding node_map_from
  last_found d [] node after e h =
      rw (e, node_map_from)
        (unnamed_keep (insert name node d) after h
          ∙ get-insert name name node d
          ∙ rw (eq_refl name) refl)
  last_found d (b ∷ bs) node after e h = elim (Option-cases (meta_name b.object_meta)) [
    | inl f ↦ rw (f, node_map_from) (last_found d bs node after e h)
    | inr (k, f) ↦ rw (f, node_map_from) (last_found (insert k b d) bs node after e h)
  ]

  later :
      (node n : Node) (nodes : List Node)
      → IsLastNamed nodes name n
      → IsLastNamed (node ∷ nodes) name n
  later node n nodes l = record {
    before = node ∷ l.before;
    after = l.after;
    split = ap (λ t. node ∷ t) l.split;
    named = l.named;
    none_later = l.none_later;
  }

  found_last :
      (d : Dict Node) (nodes : List Node)
      → ((node : Node) × IsLastNamed nodes name node
          × (get name (node_map_from d nodes) ≡ some node))
        ⊎ (get name (node_map_from d nodes) ≡ get name d)
          × ((n : Node) → Memᴰ n nodes → meta_name n.object_meta ≢ some name)
  unfolding node_map_from
  found_last d [] = inr (refl, λ n m. elim m [ ])
  found_last d (node ∷ nodes) = elim (Option-cases (meta_name node.object_meta)) [
    | inl e ↦ elim (found_last d nodes) [
      | inl (n, l, g) ↦ inl (n, later node n nodes l, rw (e, node_map_from) g)
      | inr (g, h) ↦
          let here : meta_name node.object_meta ≢ some name = λ k. let both = sym e ∙ k in cc in
          inr (
            rw (e, node_map_from) g,
            each_cons (λ n. meta_name n.object_meta ≢ some name) nodes here h,
          )
    ]
    | inr (k, e) ↦ elim (found_last (insert k node d) nodes) [
      | inl (n, l, g) ↦ inl (n, later node n nodes l, rw (e, node_map_from) g)
      | inr (g, h) ↦ elim (Bool-cases (k == name)) [
        | inl q ↦
            let found : get name (node_map_from d (node ∷ nodes)) ≡ some node =
              rw (e, node_map_from) (g ∙ get-insert k name node d ∙ rw q refl) in
            let last : IsLastNamed (node ∷ nodes) name node = record {
              before = [];
              after = nodes;
              split = refl;
              named = e ∙ ap (λ t. some t) ((eq_iff k name).0 q);
              none_later = h;
            } in
            inl (node, last, found)
        | inr q ↦
            let here : meta_name node.object_meta ≢ some name = λ t.
              let both : some k ≡ some name = sym e ∙ t in
              let same : k ≡ name = cc in let yes = (eq_iff k name).1 same in cc in
            inr (
              rw (e, node_map_from) (g ∙ get-insert k name node d ∙ rw q refl),
              each_cons (λ n. meta_name n.object_meta ≢ some name) nodes here h,
            )
      ]
    ]
  ]

module _ (ctx : SchedulingContext) (c : TopologySpreadConstraint) (domain : String)
    (ship : Ship) where
  RunsIn→domain : RunsIn ctx c domain ship → is_named (ship_domain ctx c ship) domain ≡ true
  unfolding ship_domain node_map
  RunsIn→domain r =
      let filled : not_empty r.node_name ≡ true =
        let h = r.placed_somewhere in ground (arith, eq_iff r.node_name "") in
      let labelled = Selects→matches r.meta.labels c.label_selector r.labelled in
      let l = r.last in
      let found : get r.node_name (node_map_from [] ctx.all_nodes) ≡ some r.node =
        ap (λ t. get r.node_name (node_map_from [] t)) l.split
        ∙ last_found r.node_name [] l.before r.node l.after l.named l.none_later in
      rw
        (
          r.has_spec, r.placed, filled, r.has_meta, labelled, found, r.has_node_meta, r.in_domain,
          ship_domain, node_map,
        )
        (eq_refl domain)

  -- The rest of `ship_domain` for a ship that is placed.
  on_node :
      (spec : ShipSpec) (node_name : String)
      → ship.spec ≡ some spec
      → spec.node_name ≡ some node_name
      → not_empty node_name ≡ true
      → is_named
          (do
            matching ←
                keep_if
                  (λ meta. label_selector_matches c.label_selector meta.labels)
                  ship.object_meta
            node ← get node_name (node_map ctx)
            node_domain c node)
          domain
        ≡ true
      → RunsIn ctx c domain ship
  unfolding node_map
  on_node spec node_name e f g h = elim (Option-cases ship.object_meta) [
    | inl k ↦ absurd (let t = rw k at h in cc)
    | inr (meta, k) ↦ elim (Bool-cases (label_selector_matches c.label_selector meta.labels)) [
      | inr l ↦ absurd (let t = rw (k, l) at h in cc)
      | inl l ↦ elim (found_last node_name [] ctx.all_nodes) [
        | inr (m, n) ↦ absurd (let t = rw (k, l, m, node_map) at h in cc)
        | inl (node, last, m) ↦
            let rest : is_named (node_domain c node) domain ≡ true = rw (k, l, m, node_map) at h in
            elim (Option-cases node.object_meta) [
              | inl n ↦ absurd (let t = rw n at rest in cc)
              | inr (node_meta, n) ↦ record {
                spec = spec;
                has_spec = e;
                node_name = node_name;
                placed = f;
                placed_somewhere = λ t. let u = rw t at g in cc;
                meta = meta;
                has_meta = k;
                labelled = matches→Selects meta.labels c.label_selector l;
                node = node;
                last = last;
                node_meta = node_meta;
                has_node_meta = n;
                in_domain = is_named-eq (get c.topology_key node_meta.labels) domain (rw n at rest);
              }
            ]
      ]
    ]
  ]

  domain→RunsIn : is_named (ship_domain ctx c ship) domain ≡ true → RunsIn ctx c domain ship
  unfolding ship_domain node_map
  domain→RunsIn h = elim (Option-cases ship.spec) [
    | inl e ↦ absurd (let k = rw (e, ship_domain) at h in cc)
    | inr (spec, e) ↦ elim (Option-cases spec.node_name) [
      | inl f ↦ absurd (let k = rw (e, f, ship_domain) at h in cc)
      | inr (node_name, f) ↦ elim (Bool-cases (not_empty node_name)) [
        | inr g ↦ absurd (let k = rw (e, f, g, ship_domain) at h in cc)
        | inl g ↦ on_node spec node_name e f g (rw (e, f, g, ship_domain) at h)
      ]
    ]
  ]

-- The bucket of a domain is exactly the number of the cluster's ships that have labels which the
-- constraint selects and are placed on a node with this value of the topology key; of nodes with one
-- name it is the last.
pub topology_buckets-Tally :
    (ctx : SchedulingContext) (constraint : TopologySpreadConstraint) (domain : String)
    → Tally
        (RunsIn ctx constraint domain)
        ctx.all_ships
        (bucket domain (topology_buckets ctx constraint))
topology_buckets-Tally ctx c domain =
    subst (Tally (RunsIn ctx c domain) ctx.all_ships) (sym (topology_buckets-eq c ctx domain)) (
      count-Tally (RunsIn ctx c domain) (λ s. is_named (ship_domain ctx c s) domain)
        (λ s. (domain→RunsIn ctx c domain s, RunsIn→domain ctx c domain s)) ctx.all_ships)
