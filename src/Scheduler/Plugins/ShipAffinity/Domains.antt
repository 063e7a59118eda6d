-- ===== src/Scheduler/Plugins/ShipAffinity/Domains.antt =====
-- What tugboat-scheduler/src/plugins/ship_affinity.rs asks of the ships already placed.
use tugboat.Base.{
  ◌≡◌, refl, sym, ◌∙◌, ◌↔◌, String, true, false, some, List, [], ◌∷◌, Memᴰ, any_of_mem, mem_of_any,
  mem-filter, mem-filter_of, arith, Bool-cases, Option-cases, inl, inr, each_cons,
}
use text.Mathlib.TextPositions.{eq_refl}
use tugboat.Base.Dict.{Dict, get}
use tugboat.Manifests.Meta.{meta_labels, is_named, is_named-eq}
use tugboat.Manifests.Node.{Node}
use tugboat.Manifests.Ship.{Affinity, Ship, ShipAffinityTerm}
use tugboat.Scheduler.Context.{SchedulingContext}
use tugboat.Scheduler.Plugins.ShipAffinity.Peers.{
  IsSelected, NodeHas, matching→IsSelected, IsSelected→matching, domain→NodeHas, NodeHas→domain,
}
use tugboat.Scheduler.Framework.{FilterResult, accept}
use tugboat.Scheduler.Plugins.ShipAffinity.{
  is_matching_scheduled, peer_domain, matching_scheduled_ships, matches_required_affinity_term,
  affinity_loop, anti_affinity_loop, affinity_terms, anti_affinity_terms, ship_affinities,
  ship_affinity,
}

-- A placed ship that the term selects runs on a node in the domain of these labels: both have the
-- same value for the term's topology key.
abbrev pub HasPeer : SchedulingContext → Dict String → ShipAffinityTerm → Type 0
HasPeer ctx labels term =
    (peer : Ship) × (node_name : String) × (domain : String) × Memᴰ peer ctx.all_ships
    × IsSelected ctx term peer node_name
    × NodeHas ctx node_name term.topology_key domain
    × (get term.topology_key labels ≡ some domain)

module _ (ctx : SchedulingContext) (labels : Dict String) where
  matches→HasPeer :
      (term : ShipAffinityTerm)
      → matches_required_affinity_term ctx term labels ≡ true
      → HasPeer ctx labels term
  unfolding matches_required_affinity_term matching_scheduled_ships
  matches→HasPeer term h = elim (Option-cases (get term.topology_key labels)) [
    | inl e ↦ absurd (ground arith)
    | inr (v, e) ↦
        let (peer, m, k) =
          mem_of_any (λ peer. is_named (peer_domain ctx term peer) v)
            (matching_scheduled_ships ctx term) (rw (e, matches_required_affinity_term) at h) in
        let (n, selected) = mem-filter (is_matching_scheduled ctx term) ctx.all_ships m in
        let (node_name, placed, runs) =
          domain→NodeHas ctx term peer v (is_named-eq (peer_domain ctx term peer) v k) in
        (
          peer,
          node_name,
          v,
          n,
          matching→IsSelected ctx term peer node_name placed selected,
          runs,
          e,
        )
  ]

  HasPeer→matches :
      (term : ShipAffinityTerm)
      → HasPeer ctx labels term
      → matches_required_affinity_term ctx term labels ≡ true
  unfolding matches_required_affinity_term matching_scheduled_ships
  HasPeer→matches term (peer, node_name, v, m, chosen, runs, f) =
      let (placed, selected) = IsSelected→matching ctx term peer node_name chosen in
      let e = NodeHas→domain ctx term peer node_name v placed runs in
      rw (f, matches_required_affinity_term)
        (any_of_mem (λ peer. is_named (peer_domain ctx term peer) v)
          (matching_scheduled_ships ctx term)
          (mem-filter_of (is_matching_scheduled ctx term) ctx.all_ships m selected)
          (rw e (eq_refl v)))

  affinity_iff :
      (terms : List ShipAffinityTerm) (next : FilterResult)
      → (affinity_loop ctx labels terms next ≡ accept) ↔ (
          ((term : ShipAffinityTerm) → Memᴰ term terms → HasPeer ctx labels term) × (next ≡ accept))
  unfolding affinity_loop
  affinity_iff [] next = (λ h. (λ term m. elim m [ ], h), λ p. p.1)
  affinity_iff (t ∷ ts) next = (
    λ h.
        let here : matches_required_affinity_term ctx t labels ≡ true = ground arith in
        let (each, k) = (affinity_iff ts next).0 (ground arith) in
        (each_cons (HasPeer ctx labels) ts (matches→HasPeer t here) each, k),
    λ p.
        let here = HasPeer→matches t (p.0 t (Memᴰ.head refl)) in
        let rest = (affinity_iff ts next).1 (λ term m. p.0 term (Memᴰ.tail m), p.1) in
        rw (here, affinity_loop) rest,
  )

  anti_affinity_iff :
      (terms : List ShipAffinityTerm)
      → (anti_affinity_loop ctx labels terms ≡ accept)
        ↔ ((term : ShipAffinityTerm) → Memᴰ term terms → ¬ HasPeer ctx labels term)
  unfolding anti_affinity_loop
  anti_affinity_iff [] = (λ h term m. elim m [ ], λ p. refl)
  anti_affinity_iff (t ∷ ts) = (
    λ h.
        let apart : matches_required_affinity_term ctx t labels ≡ false = ground arith in
        let each = (anti_affinity_iff ts).0 (ground arith) in
        each_cons (λ term. ¬ HasPeer ctx labels term) ts
          (λ q. let k = HasPeer→matches t q in absurd (cc)) each,
    λ p. elim (Bool-cases (matches_required_affinity_term ctx t labels)) [
      | inl e ↦ absurd (p t (Memᴰ.head refl) (matches→HasPeer t e))
      | inr e ↦
          rw (e, anti_affinity_loop) ((anti_affinity_iff ts).1 (λ term m. p term (Memᴰ.tail m)))
    ],
  )

-- For a ship with an affinity, the filter accepts a node exactly when, for each required affinity
-- term, a placed ship that the term selects, in a namespace that it looks at and by its labels, runs
-- in the node's domain for the term's topology key, and for no required anti-affinity term one does.
pub ship_affinity_iff :
    (ctx : SchedulingContext) (node : Node) (affinity : Affinity)
    → ship_affinities ctx ≡ some affinity
    → let labels = meta_labels node.object_meta in
      (ship_affinity ctx node ≡ accept) ↔ (
        ((term : ShipAffinityTerm) → Memᴰ term (affinity_terms affinity) → HasPeer ctx labels term)
        × ((term : ShipAffinityTerm)
            → Memᴰ term (anti_affinity_terms affinity)
            → ¬ HasPeer ctx labels term))
unfolding ship_affinity
ship_affinity_iff ctx node affinity e =
    let labels = meta_labels node.object_meta in
    let next = anti_affinity_loop ctx labels (anti_affinity_terms affinity) in
    let together = affinity_iff ctx labels (affinity_terms affinity) next in
    let apart = anti_affinity_iff ctx labels (anti_affinity_terms affinity) in
    let same : ship_affinity ctx node ≡ affinity_loop ctx labels (affinity_terms affinity) next =
      rw (e, ship_affinity) in
    (
      λ h. let (near, rest) = together.0 (sym same ∙ h) in (near, apart.0 rest),
      λ p. same ∙ together.1 (p.0, apart.1 p.1),
    )
