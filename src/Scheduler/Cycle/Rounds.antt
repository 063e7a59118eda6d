-- ===== src/Scheduler/Cycle/Rounds.antt =====
-- What a round of tugboat-scheduler/src/scheduler.rs binds.
use tugboat.Base.{
  ◌≡◌, refl, sym, subst, String, Bool, true, false, Option, none, some, List, [], ◌∷◌, Memᴰ, filter,
  mem-filter, mem-filter_of, Option-cases, inl, inr, unwrap_or,
}
use mathlib.Core.List.Memᴰ
use tugboat.Manifests.Meta.{Time, meta_name}
use tugboat.Manifests.Node.{Node}
use tugboat.Manifests.Ship.{Ship, ShipClass}
use tugboat.Manifests.Storage.{PersistentVolumeClaim}
use tugboat.Scheduler.Context.{SchedulingContext, ship_class_name, ship_persistent_volume_claims}
use tugboat.Scheduler.Framework.{Framework, schedule}
use tugboat.Scheduler.Cycle.{
  Server, World, Request, ok, replace_ship, annotate_claim, Cache, cached_ship_class, context_of,
  bind_ship, ship_name_or_unknown, ship_namespace_or_default, annotate_loop, after_answer,
  after_annotating, claim_to_annotate, bind_to, place_ship, schedule_ship, missing_runtime_class,
  is_unscheduled, schedule_each, run_round,
}
use tugboat.Scheduler.Cycle.Binding.{IsBinding, schedule_ship-IsBinding}

-- Every request succeeds.
abbrev pub AnswersOk : Server → Type 0
AnswersOk server = (w : World server) (request : Request) → (server.call w request).0 ≡ ok

-- The framework has a node for the ship, whose class and runtime class the cache knows.
pub record IsPlaceable (fw : Framework) (cache : Cache) (ship : Ship) (node : Node) : Type 0 where
  pub ship_class : ShipClass
  pub class_known : cached_ship_class cache (ship_class_name ship) ≡ some ship_class
  pub runtime_class_known : missing_runtime_class cache ship ≡ none
  pub chosen : schedule fw (context_of cache ship ship_class) cache.nodes ≡ some node

-- The request that binds a ship to a node.
abbrev pub binding_of : Ship → Node → Request
binding_of ship node =
    replace_ship (ship_namespace_or_default ship) (ship_name_or_unknown ship)
      (bind_ship ship (unwrap_or (meta_name node.object_meta) "unknown"))

module _ (server : Server) (up : AnswersOk server) where
  annotate_loop-done :
      (ctx : SchedulingContext) (namespace node_name : String) (w : World server)
      (pvcs : List PersistentVolumeClaim)
      → (annotate_loop server ctx namespace node_name w pvcs).0 ≡ true
  unfolding annotate_loop after_answer
  annotate_loop-done ctx namespace node_name w [] = refl
  annotate_loop-done ctx namespace node_name w (pvc ∷ pvcs) =
      elim (Option-cases (claim_to_annotate ctx node_name pvc)) [
        | inl e ↦ rw (e, annotate_loop) (annotate_loop-done ctx namespace node_name w pvcs)
        | inr (name, e) ↦
            rw (e, up w (annotate_claim namespace name node_name), annotate_loop, after_answer)
              (annotate_loop-done ctx namespace node_name
                (server.call w (annotate_claim namespace name node_name)).1 pvcs)
      ]

  after_annotating-sends :
      (binding : Request) (r : Bool × List Request × World server)
      → r.0 ≡ true
      → Memᴰ binding (after_annotating server binding r).0
  unfolding after_annotating
  after_annotating-sends binding (true, requests, w) h = Memᴰ.append_right requests (Memᴰ.head refl)
  after_annotating-sends binding (false, requests, w) h = absurd (cc)

  module _ (now : Time) (fw : Framework) (cache : Cache) where
    pub schedule_ship-binds :
        (w : World server) (ship : Ship) (node : Node)
        → IsPlaceable fw cache ship node
        → Memᴰ (binding_of ship node) (schedule_ship server w now fw cache ship).0
    unfolding schedule_ship place_ship bind_to
    schedule_ship-binds w ship node p =
        let ctx = context_of cache ship p.ship_class in
        let node_name = unwrap_or (meta_name node.object_meta) "unknown" in
        rw (p.class_known, p.runtime_class_known, p.chosen, schedule_ship, place_ship)
          (after_annotating-sends (binding_of ship node) _ (
            annotate_loop-done ctx (ship_namespace_or_default ship) node_name w
              (ship_persistent_volume_claims ctx)))

    schedule_each-binds :
        (w : World server) (ships : List Ship) {ship : Ship} {node : Node}
        → Memᴰ ship ships
        → IsPlaceable fw cache ship node
        → Memᴰ (binding_of ship node) (schedule_each server w now fw cache ships).0
    unfolding schedule_each
    schedule_each-binds w [] m p = elim m [ ]
    schedule_each-binds w (s ∷ ss) {node = node} (Memᴰ.head e) p = Memᴰ.append_left _ (
        subst (λ t. Memᴰ (binding_of t node) (schedule_ship server w now fw cache s).0) (sym e)
          (schedule_ship-binds w s node (subst (λ t. IsPlaceable fw cache t node) e p)))
    schedule_each-binds w (s ∷ ss) (Memᴰ.tail m) p =
        Memᴰ.append_right (schedule_ship server w now fw cache s).0
          (schedule_each-binds (schedule_ship server w now fw cache s).1 ss m p)

-- A round of the leader sends, while requests succeed, a binding for every ship of the cache that is
-- unscheduled and placeable. Each is placed against the cache as it was at the start of the round:
-- the bindings that the round made before it do not count.
pub run_round-binds :
    (server : Server) (w : World server) (now : Time) (fw : Framework) (scheduler : String)
    (cache : Cache) (ship : Ship) (node : Node)
    → AnswersOk server
    → Memᴰ ship cache.ships
    → is_unscheduled scheduler ship ≡ true
    → IsPlaceable fw cache ship node
    → Memᴰ (binding_of ship node) (run_round server w now fw scheduler true (some cache)).0
unfolding run_round
run_round-binds server w now fw scheduler cache ship node up m h p =
    schedule_each-binds server up now fw cache w (filter (is_unscheduled scheduler) cache.ships)
      (mem-filter_of (is_unscheduled scheduler) cache.ships m h) p

module _ (server : Server) (now : Time) (fw : Framework) (cache : Cache) where
  schedule_each-IsBinding :
      (w : World server) (ships : List Ship) {namespace name : String} {bound : Ship}
      → Memᴰ (replace_ship namespace name bound) (schedule_each server w now fw cache ships).0
      → (ship : Ship) × Memᴰ ship ships × IsBinding fw cache ship namespace name bound
  unfolding schedule_each
  schedule_each-IsBinding w [] m = elim m [ ]
  schedule_each-IsBinding w (s ∷ ss) m =
      elim (Memᴰ.append_cases (schedule_ship server w now fw cache s).0 m) [
        | inl n ↦ (s, Memᴰ.head refl, schedule_ship-IsBinding server w now fw cache s _ _ _ n)
        | inr n ↦
            let (ship, k, b) =
              schedule_each-IsBinding (schedule_ship server w now fw cache s).1 ss n in
            (ship, Memᴰ.tail k, b)
      ]

-- A round binds only when the scheduler leads and the cache was refreshed, and then only ships of
-- that cache that have no node yet and are meant for this scheduler, each to the node that is the
-- first of the best for it.
pub run_round-IsBinding :
    (server : Server) (w : World server) (now : Time) (fw : Framework) (scheduler : String)
    (leads : Bool) (refreshed : Option Cache) (namespace name : String) (bound : Ship)
    → Memᴰ
        (replace_ship namespace name bound)
        (run_round server w now fw scheduler leads refreshed).0
    → (cache : Cache) × (ship : Ship) × (leads ≡ true)
      × (refreshed ≡ some cache)
      × Memᴰ ship cache.ships
      × (is_unscheduled scheduler ship ≡ true)
      × IsBinding fw cache ship namespace name bound
unfolding run_round
run_round-IsBinding server w now fw scheduler false refreshed namespace name bound m = elim m [ ]
run_round-IsBinding server w now fw scheduler true none namespace name bound m = elim m [ ]
run_round-IsBinding server w now fw scheduler true (some cache) namespace name bound m =
    let (ship, k, b) =
      schedule_each-IsBinding server now fw cache w (filter (is_unscheduled scheduler) cache.ships)
        m in
    let (n, u) = mem-filter (is_unscheduled scheduler) cache.ships k in
    (cache, ship, refl, refl, n, u, b)
