-- ===== src/Scheduler/Plugins/TopologySpread/Skew.antt =====
-- What the buckets of tugboat-scheduler/src/plugins/topology_spread.rs count, and what its filter
-- guarantees of the spread.
use tugboat.Base.{
  ℕ, suc, ◌+◌, ◌≤◌, min, ◌≡◌, refl, ◌∙◌, ap, sym, String, true, some, List, [], ◌∷◌, Memᴰ, is_some,
  unwrap_or, count, arith, Bool-cases, Option-cases, inl, inr, subst, ◌==◌, eq_iff, if◌then◌else◌,
}
use text.Mathlib.TextPositions.{eq_refl}
use tugboat.Base.Dict.{Dict, get, insert, get-insert}
use tugboat.Base.Int.{ℤ, sub_ℕ, ◌≤ℤ◌}
use tugboat.Manifests.Meta.{is_named}
use tugboat.Manifests.Node.{Node}
use tugboat.Manifests.Ship.{Ship, ShipSpec, TopologySpreadConstraint}
use tugboat.Scheduler.Context.{SchedulingContext}
use tugboat.Scheduler.Framework.{accept}
use tugboat.Scheduler.Plugins.TopologySpread.{
  node_domain, or_insert_zero, add_one, domains_from, ship_domain, ships_from, topology_buckets,
  min_count, skew_in, skew_if_scheduled, constraint_loop, topology_spread,
}

abbrev pub bucket : String → Dict ℕ → ℕ
bucket v d = unwrap_or (get v d) 0

bucket-add_one :
    (w v : String) (d : Dict ℕ) → bucket v (add_one w d) ≡ bucket v d + (if w == v then 1 else 0)
bucket-add_one w v d = rw (get-insert w v (suc (bucket w d)) d) (ground (arith, eq_iff w v))

bucket-or_insert_zero : (w v : String) (d : Dict ℕ) → bucket v (or_insert_zero w d) ≡ bucket v d
bucket-or_insert_zero w v d = rw (get-insert w v (bucket w d) d) (ground (arith, eq_iff w v))

has-insert :
    (w v : String) (n : ℕ) (d : Dict ℕ)
    → is_some (get v d) ≡ true
    → is_some (get v (insert w n d)) ≡ true
has-insert w v n d h = rw (get-insert w v n d) (ground arith)

has-insert_same : (v : String) (n : ℕ) (d : Dict ℕ) → is_some (get v (insert v n d)) ≡ true
has-insert_same v n d = rw (get-insert v v n d) (ground (arith, eq_iff v v))

min_count-le :
    (d : Dict ℕ) (v : String)
    → is_some (get v d) ≡ true
    → (k : ℕ) × (min_count d ≡ some k) × (k ≤ bucket v d)
unfolding min_count
min_count-le [] v h = absurd (cc)
min_count-le ((w, n) ∷ d) v h = elim (Bool-cases (w == v)) [
  | inl e ↦ elim (Option-cases (min_count d)) [
    | inl f ↦ (n, rw f, ground arith)
    | inr (k, f) ↦ (min n k, rw f, ground arith)
  ]
  | inr e ↦ let (k, f, g) = min_count-le d v (ground arith) in (min n k, rw f, ground arith)
]

module _ (c : TopologySpreadConstraint) where
  domains_from-zero :
      (v : String) (d : Dict ℕ) (nodes : List Node) → bucket v (domains_from c d nodes) ≡ bucket v d
  unfolding domains_from
  domains_from-zero v d [] = refl
  domains_from-zero v d (node ∷ nodes) = elim (Option-cases (node_domain c node)) [
    | inl e ↦ rw (e, domains_from) (domains_from-zero v d nodes)
    | inr (w, e) ↦
        rw (e, domains_from)
          (domains_from-zero v (or_insert_zero w d) nodes ∙ bucket-or_insert_zero w v d)
  ]

  domains_from-keeps :
      (v : String) (d : Dict ℕ) (nodes : List Node)
      → is_some (get v d) ≡ true
      → is_some (get v (domains_from c d nodes)) ≡ true
  unfolding domains_from
  domains_from-keeps v d [] h = h
  domains_from-keeps v d (node ∷ nodes) h = elim (Option-cases (node_domain c node)) [
    | inl e ↦ rw (e, domains_from) (domains_from-keeps v d nodes h)
    | inr (w, e) ↦
        rw (e, domains_from)
          (domains_from-keeps v (or_insert_zero w d) nodes (has-insert w v (bucket w d) d h))
  ]

  domains_from-has :
      (v : String) (d : Dict ℕ) (nodes : List Node) {node : Node}
      → Memᴰ node nodes
      → node_domain c node ≡ some v
      → is_some (get v (domains_from c d nodes)) ≡ true
  unfolding domains_from
  domains_from-has v d [] m h = elim m [ ]
  domains_from-has v d (node ∷ nodes) (Memᴰ.head k) h =
      let e : node_domain c node ≡ some v = rw (← k) h in
      rw (e, domains_from)
        (domains_from-keeps v (or_insert_zero v d) nodes (has-insert_same v (bucket v d) d))
  domains_from-has v d (node ∷ nodes) (Memᴰ.tail m) h = elim (Option-cases (node_domain c node)) [
    | inl e ↦ rw (e, domains_from) (domains_from-has v d nodes m h)
    | inr (w, e) ↦ rw (e, domains_from) (domains_from-has v (or_insert_zero w d) nodes m h)
  ]

  module _ (ctx : SchedulingContext) where
    -- How many of the ships count for a domain.
    abbrev pub ships_in : String → List Ship → ℕ
    ships_in v ships = count (λ s. is_named (ship_domain ctx c s) v) ships

    ships_from-eq :
        (v : String) (d : Dict ℕ) (ships : List Ship)
        → bucket v (ships_from ctx c d ships) ≡ bucket v d + ships_in v ships
    unfolding ships_from
    ships_from-eq v d [] = omega arith
    ships_from-eq v d (ship ∷ ships) = elim (Option-cases (ship_domain ctx c ship)) [
      | inl e ↦ rw (e, ships_from) (ships_from-eq v d ships)
      | inr (w, e) ↦
          rw (e, ships_from)
            (ground (arith, ships_from-eq v (add_one w d) ships, bucket-add_one w v d))
    ]

    ships_from-keeps :
        (v : String) (d : Dict ℕ) (ships : List Ship)
        → is_some (get v d) ≡ true
        → is_some (get v (ships_from ctx c d ships)) ≡ true
    unfolding ships_from
    ships_from-keeps v d [] h = h
    ships_from-keeps v d (ship ∷ ships) h = elim (Option-cases (ship_domain ctx c ship)) [
      | inl e ↦ rw (e, ships_from) (ships_from-keeps v d ships h)
      | inr (w, e) ↦
          rw (e, ships_from)
            (ships_from-keeps v (add_one w d) ships (has-insert w v (suc (bucket w d)) d h))
    ]

    -- The bucket of a domain counts the cluster's ships that the constraint selects and that run on
    -- a node of the domain.
    pub topology_buckets-eq :
        (v : String) → bucket v (topology_buckets ctx c) ≡ ships_in v ctx.all_ships
    unfolding topology_buckets
    topology_buckets-eq v =
        ships_from-eq v (domains_from c [] ctx.all_nodes) ctx.all_ships
        ∙ ap (λ n. n + ships_in v ctx.all_ships) (domains_from-zero v [] ctx.all_nodes)
        ∙ omega arith

    topology_buckets-has :
        (v : String) {node : Node}
        → Memᴰ node ctx.all_nodes
        → node_domain c node ≡ some v
        → is_some (get v (topology_buckets ctx c)) ≡ true
    unfolding topology_buckets
    topology_buckets-has v m h =
        ships_from-keeps v (domains_from c [] ctx.all_nodes) ctx.all_ships
          (domains_from-has v [] ctx.all_nodes m h)

sub_ℕ-antitone : (a b c : ℕ) → c ≤ b → sub_ℕ a b ≤ℤ sub_ℕ a c
sub_ℕ-antitone a b c h = ground arith

skew_in-ge :
    (d : Dict ℕ) (v w : String) (s : ℤ)
    → skew_in d v ≡ some s
    → is_some (get w d) ≡ true
    → sub_ℕ (suc (bucket v d)) (bucket w d + (if v == w then 1 else 0)) ≤ℤ s
unfolding skew_in
skew_in-ge [] v w s h k = absurd (cc)
skew_in-ge (entry ∷ more) v w s h k =
    let d = entry ∷ more in
    let (m, found, least) = min_count-le (add_one v d) w (has-insert v w (suc (bucket v d)) d k) in
    let grown : bucket v (add_one v d) ≡ suc (bucket v d) =
      bucket-add_one v v d ∙ rw (eq_refl v) (omega arith) in
    let bound : m ≤ bucket w d + (if v == w then 1 else 0) =
      subst (λ n. m ≤ n) (bucket-add_one v w d) least in
    let out : some (sub_ℕ (suc (bucket v d)) m) ≡ some s =
      ap (λ n. some (sub_ℕ n m)) (sym grown)
      ∙ ap (λ o. some (sub_ℕ (bucket v (add_one v d)) (unwrap_or o 0))) (sym found)
      ∙ h in
    let same : sub_ℕ (suc (bucket v d)) m ≡ s = cc in
    subst (λ z. sub_ℕ (suc (bucket v d)) (bucket w d + (if v == w then 1 else 0)) ≤ℤ z) same
      (sub_ℕ-antitone (suc (bucket v d)) _ m bound)

constraint_loop-skew :
    (ctx : SchedulingContext) (node : Node) (constraints : List TopologySpreadConstraint)
    {c : TopologySpreadConstraint}
    → constraint_loop ctx node constraints ≡ accept
    → Memᴰ c constraints
    → c.when_unsatisfiable ≡ "DoNotSchedule"
    → (s : ℤ) × (skew_if_scheduled ctx node c ≡ some s) × (s ≤ℤ c.max_skew)
unfolding constraint_loop
constraint_loop-skew ctx node [] h m e = elim m [ ]
constraint_loop-skew ctx node (c ∷ cs) h (Memᴰ.head k) e =
    let binding : c.when_unsatisfiable ≡ "DoNotSchedule" = rw (← k) e in
    rw k (elim (Option-cases (skew_if_scheduled ctx node c)) [
      | inl f ↦ absurd (ground (arith, eq_iff c.when_unsatisfiable "DoNotSchedule"))
      | inr (s, f) ↦ (s, f, ground (arith, eq_iff c.when_unsatisfiable "DoNotSchedule"))
    ])
constraint_loop-skew ctx node (c ∷ cs) h (Memᴰ.tail m) e =
    constraint_loop-skew ctx node cs (ground arith) m e

skew_if_scheduled-ge :
    (ctx : SchedulingContext) (node : Node) (c : TopologySpreadConstraint) (s : ℤ)
    → skew_if_scheduled ctx node c ≡ some s
    → (v : String) × (node_domain c node ≡ some v)
      × ((other : Node) (w : String)
          → Memᴰ other ctx.all_nodes
          → node_domain c other ≡ some w
          → sub_ℕ
              (suc (ships_in c ctx v ctx.all_ships))
              (ships_in c ctx w ctx.all_ships + (if v == w then 1 else 0))
            ≤ℤ s)
unfolding skew_if_scheduled
skew_if_scheduled-ge ctx node c s h = elim (Option-cases (node_domain c node)) [
  | inl e ↦ absurd (ground arith)
  | inr (v, e) ↦
      let d = topology_buckets ctx c in
      let k : skew_in d v ≡ some s = rw (e, skew_if_scheduled) at h in
      (
        v,
        e,
        λ other w m f.
            rw (← topology_buckets-eq c ctx v, ← topology_buckets-eq c ctx w)
              (skew_in-ge d v w s k (topology_buckets-has c ctx w m f)),
      )
]

-- If the filter accepts a node, then for each constraint of the ship with "DoNotSchedule" the node
-- has the topology key, and in its domain the selected ships, the new one counted with them, are at
-- most `max_skew` more than in the domain of any other node of the cluster.
pub topology_spread-within_skew :
    (ctx : SchedulingContext) (node : Node) (spec : ShipSpec) (c : TopologySpreadConstraint)
    → ctx.ship.spec ≡ some spec
    → Memᴰ c spec.topology_spread_constraints
    → c.when_unsatisfiable ≡ "DoNotSchedule"
    → topology_spread ctx node ≡ accept
    → (v : String) × (node_domain c node ≡ some v)
      × ((other : Node) (w : String)
          → Memᴰ other ctx.all_nodes
          → node_domain c other ≡ some w
          → sub_ℕ
              (suc (ships_in c ctx v ctx.all_ships))
              (ships_in c ctx w ctx.all_ships + (if v == w then 1 else 0))
            ≤ℤ c.max_skew)
unfolding topology_spread skew_if_scheduled ship_domain
topology_spread-within_skew ctx node spec c e m f h =
    let k : constraint_loop ctx node spec.topology_spread_constraints ≡ accept = rw e at h in
    let (s, g, bounded) = constraint_loop-skew ctx node spec.topology_spread_constraints k m f in
    let (v, i, least) = skew_if_scheduled-ge ctx node c s g in
    (v, i, λ other w n j. let l = least other w n j in omega arith)
