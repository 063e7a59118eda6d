-- ===== src/Scheduler/Cycle/Binding.antt =====
-- When tugboat-scheduler/src/scheduler.rs binds a ship to a node.
use tugboat.Base.{
  ◌≡◌, refl, inl, inr, String, Bool, true, false, some, List, [], ◌∷◌, Memᴰ, arith, Option-cases,
  unwrap_or, any, any_of_mem, subst,
}
use mathlib.Core.List.Memᴰ
use tugboat.Manifests.Meta.{Time, meta_name}
use tugboat.Manifests.Node.{Node}
use tugboat.Manifests.Ship.{Ship, ShipClass}
use tugboat.Manifests.Storage.{PersistentVolumeClaim}
use tugboat.Scheduler.Context.{SchedulingContext, ship_class_name, ship_persistent_volume_claims}
use tugboat.Scheduler.Framework.{Framework, schedule}
use tugboat.Scheduler.Framework.Choice.{IsFirstBest, schedule-IsFirstBest}
use tugboat.Scheduler.Cycle.{
  Server, World, Request, Response, ok, err, replace_ship, annotate_claim, replace_status, Cache,
  cached_ship_class, context_of, bind_ship, ship_name_or_unknown, ship_namespace_or_default,
  annotate_loop, after_answer, after_annotating, claim_to_annotate, bind_to, place_ship,
  schedule_ship, missing_runtime_class,
}

abbrev is_binding : Request → Bool
is_binding (replace_ship namespace name ship) = true
is_binding (replace_status namespace name ship) = false
is_binding (annotate_claim namespace name node) = false

-- Why a request binds a ship: its class is known, and the framework chose the node for it.
pub record IsBinding (fw : Framework) (cache : Cache) (ship : Ship) (namespace name : String)
    (bound : Ship) : Type 0 where
  pub ship_class : ShipClass
  pub node : Node
  pub class_known : cached_ship_class cache (ship_class_name ship) ≡ some ship_class
  pub best : IsFirstBest fw (context_of cache ship ship_class) cache.nodes node
  pub bound_to : bound ≡ bind_ship ship (unwrap_or (meta_name node.object_meta) "unknown")
  pub in_namespace : namespace ≡ ship_namespace_or_default ship
  pub under_name : name ≡ ship_name_or_unknown ship

module _ (server : Server) where
  module _ (request : Request) (w : World server) (rest : Bool × List Request × World server) where
    after_answer-no_binding :
        (answer : Response)
        → is_binding request ≡ false
        → any is_binding rest.1 ≡ false
        → any is_binding (after_answer server answer request w rest).1 ≡ false
    unfolding after_answer
    after_answer-no_binding ok h k = ground arith
    after_answer-no_binding (err code) h k = ground arith

  module _ (ctx : SchedulingContext) (namespace node_name : String) where
    annotate_loop-no_binding :
        (w : World server) (pvcs : List PersistentVolumeClaim)
        → any is_binding (annotate_loop server ctx namespace node_name w pvcs).1 ≡ false
    unfolding annotate_loop
    annotate_loop-no_binding w [] = refl
    annotate_loop-no_binding w (pvc ∷ pvcs) =
        elim (Option-cases (claim_to_annotate ctx node_name pvc)) [
          | inl e ↦ rw (e, annotate_loop) (annotate_loop-no_binding w pvcs)
          | inr (name, e) ↦
              rw (e, annotate_loop)
                (after_answer-no_binding _ _ _ _ refl (
                  annotate_loop-no_binding
                    (server.call w (annotate_claim namespace name node_name)).1 pvcs))
        ]

  sent_binding :
      (binding : Request) (r : Bool × List Request × World server) {request : Request}
      → any is_binding r.1 ≡ false
      → is_binding request ≡ true
      → Memᴰ request (after_annotating server binding r).0
      → (r.0 ≡ true) × (request ≡ binding)
  unfolding after_annotating
  sent_binding binding (true, requests, w) h k m = elim (Memᴰ.append_cases requests m) [
    | inl n ↦ let e = any_of_mem is_binding requests n k in absurd (cc)
    | inr (Memᴰ.head e) ↦ (refl, e)
    | inr (Memᴰ.tail n) ↦ elim n [ ]
  ]
  sent_binding binding (false, requests, w) h k m =
      let e = any_of_mem is_binding requests m k in absurd (cc)

  no_status :
      {request : Request} {namespace name : String} {ship : Ship}
      → Memᴰ request (replace_status namespace name ship ∷ [])
      → is_binding request ≡ true
      → ⊥
  no_status (Memᴰ.head e) h = cc
  no_status (Memᴰ.tail m) h = Memᴰ.not-nil m

  module _ (w : World server) (now : Time) (fw : Framework) (cache : Cache) (ship : Ship) where
    sent : List Request
    sent = (schedule_ship server w now fw cache ship).0

    -- Where the requests of `schedule_ship` come from, if one of them binds.
    placed :
        {request : Request}
        → is_binding request ≡ true
        → Memᴰ request sent
        → (sc : ShipClass) × (node : Node) × (cached_ship_class cache (ship_class_name ship)
            ≡ some sc)
          × (schedule fw (context_of cache ship sc) cache.nodes ≡ some node)
          × (sent ≡ (bind_to server w (context_of cache ship sc) node).0)
    unfolding sent schedule_ship place_ship
    placed h m = elim (Option-cases (cached_ship_class cache (ship_class_name ship))) [
      | inl e ↦ absurd (no_status (rw (e, sent, schedule_ship) at m) h)
      | inr (sc, e) ↦ elim (Option-cases (missing_runtime_class cache ship)) [
        | inr (name, f) ↦ absurd (no_status (rw (e, f, sent, schedule_ship) at m) h)
        | inl f ↦ elim (Option-cases (schedule fw (context_of cache ship sc) cache.nodes)) [
          | inl g ↦ absurd (Memᴰ.not-nil (rw (e, f, g, sent, schedule_ship, place_ship) at m))
          | inr (node, g) ↦ (sc, node, e, g, rw (e, f, g, sent, schedule_ship, place_ship))
        ]
      ]
    ]

-- `schedule_ship` binds a ship only under its own namespace and name, only when its class is in the
-- cache, and only to the node that is the first of the best among those that every filter accepts.
pub schedule_ship-IsBinding :
    (server : Server) (w : World server) (now : Time) (fw : Framework) (cache : Cache) (ship : Ship)
    (namespace name : String) (bound : Ship)
    → Memᴰ (replace_ship namespace name bound) (schedule_ship server w now fw cache ship).0
    → IsBinding fw cache ship namespace name bound
unfolding sent bind_to
schedule_ship-IsBinding server w now fw cache ship namespace name bound m =
    let (sc, node, known, chosen, same) = placed server w now fw cache ship refl m in
    let ctx = context_of cache ship sc in
    let node_name = unwrap_or (meta_name node.object_meta) "unknown" in
    let (done, e) =
      sent_binding server _ _
        (annotate_loop-no_binding server ctx (ship_namespace_or_default ship) node_name w
          (ship_persistent_volume_claims ctx))
        refl (subst (Memᴰ (replace_ship namespace name bound)) same m) in
    record {
      ship_class = sc;
      node = node;
      class_known = known;
      best = schedule-IsFirstBest fw ctx cache.nodes node chosen;
      bound_to = cc;
      in_namespace = cc;
      under_name = cc;
    }
