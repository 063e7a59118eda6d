-- ===== src/Scheduler/Cycle.antt =====
-- tugboat-scheduler/src/scheduler.rs and cache.rs: what the scheduler asks of the API server for
-- one ship, and in one round of its loop. The server is a parameter: it answers each request and
-- moves to a new state; every function returns the requests that it made, oldest first.
pub mod Claims
pub mod Binding
pub mod Conditions
pub mod Rounds
use tugboat.Base.{
  ℕ, String, Bool, true, false, not, ◌&&◌, ◌||◌, Option, none, some, List, [], ◌∷◌, ◌++◌, ◌>>=◌,
  find, filter, is_none_or, unwrap_or, keep_if, ◌==◌, if◌then◌else◌,
}
use tugboat.Base.Dict.{get}
use tugboat.Base.Text.{trim, is_blank}
use tugboat.Manifests.Meta.{Time, meta_name, meta_namespace, is_named}
use tugboat.Manifests.Network.{ClusterNetworkClass, NetworkClass}
use tugboat.Manifests.Node.{Node, RuntimeClass}
use tugboat.Manifests.Ship.{Ship, ShipClass, ShipCondition, ShipSpec, ShipStatus}
use tugboat.Manifests.Storage.{PersistentVolume, PersistentVolumeClaim, StorageClass}
use tugboat.Scheduler.Context.{
  SchedulingContext, class_named, ship_class_name, not_empty, ship_persistent_volume_claims,
  is_unbound_wffc_claim,
}
use tugboat.Scheduler.Framework.{Framework, schedule}
use mathlib.Core.Option
use Prim.Native.String

pub data Request : Type 0 where
  replace_status : (namespace name : String) → Ship → Request
  annotate_claim : (namespace name node : String) → Request
  replace_ship : (namespace name : String) → Ship → Request

-- Success, or an error with its status code.
pub data Response : Type 0 where
  ok : Response
  err : ℕ → Response

pub record Server : Type 1 where
  pub World : Type 0
  pub call : World → Request → Response × World

pub record Cache : Type 0 where
  pub cluster_network_classes : List ClusterNetworkClass
  pub network_classes : List NetworkClass
  pub runtime_classes : List RuntimeClass
  pub nodes : List Node
  pub ships : List Ship
  pub ship_classes : List ShipClass
  pub persistent_volume_claims : List PersistentVolumeClaim
  pub persistent_volumes : List PersistentVolume
  pub storage_classes : List StorageClass

abbrev pub cached_ship_class : Cache → String → Option ShipClass
cached_ship_class cache name = find (class_named name) cache.ship_classes

abbrev pub cached_runtime_class : Cache → String → Option RuntimeClass
cached_runtime_class cache name =
    find (λ c. is_named (meta_name c.object_meta) name) cache.runtime_classes

abbrev pub context_of : Cache → Ship → ShipClass → SchedulingContext
context_of cache ship ship_class = record {
  ship = ship;
  ship_class = ship_class;
  all_cluster_network_classes = cache.cluster_network_classes;
  all_network_classes = cache.network_classes;
  all_runtime_classes = cache.runtime_classes;
  all_ships = cache.ships;
  all_nodes = cache.nodes;
  all_ship_classes = cache.ship_classes;
  all_persistent_volume_claims = cache.persistent_volume_claims;
  all_persistent_volumes = cache.persistent_volumes;
  all_storage_classes = cache.storage_classes;
}

abbrev condition_scheduling_blocked : String
condition_scheduling_blocked = "SchedulingBlocked"

abbrev selected_node_annotation : String
selected_node_annotation = "volume.tugboat.cloud/selected-node"

unfoldable pub selected_node : PersistentVolumeClaim → Option String
selected_node pvc =
    keep_if not_empty (do meta ← pvc.object_meta; get selected_node_annotation meta.annotations)

unfoldable pub upsert_ship_condition : ShipCondition → List ShipCondition → List ShipCondition
upsert_ship_condition condition [] = condition ∷ []
upsert_ship_condition condition (item ∷ items) =
    let rest = upsert_ship_condition condition items in
    if item.status == condition.status
    then (if item.message == condition.message then item ∷ items else condition ∷ items)
    else item ∷ rest

abbrev status_or_default : Option ShipStatus → ShipStatus
status_or_default none = record { conditions = []; migration = none }
status_or_default (some status) = status

unfoldable pub append_ship_condition : Ship → ShipCondition → Ship
unfolding upsert_ship_condition
append_ship_condition ship condition =
    let status : ShipStatus = status_or_default ship.status in
    record ship {
      status =
          some (record status { conditions = upsert_ship_condition condition status.conditions });
    }

-- The bound ship: `spec.node_name = Some(node_name)` where there is a spec.
unfoldable pub bind_ship : Ship → String → Ship
bind_ship ship node_name = record ship {
  spec = Option.map (λ (s : ShipSpec). record s { node_name = some node_name }) ship.spec;
}

abbrev pub ship_name_or_unknown : Ship → String
ship_name_or_unknown ship = unwrap_or (meta_name ship.object_meta) "unknown"

abbrev pub ship_namespace_or_default : Ship → String
ship_namespace_or_default ship = unwrap_or (meta_namespace ship.object_meta) "default"

abbrev pub requested_runtime_class : Ship → Option String
requested_runtime_class ship =
    keep_if not_empty (Option.map trim (do spec ← ship.spec; spec.runtime_class))

-- A requested runtime class that the cache does not have.
unfoldable pub missing_runtime_class : Cache → Ship → Option String
missing_runtime_class cache ship = do
  name ← requested_runtime_class ship
  elim (cached_runtime_class cache name) [ none ↦ some name | some _ ↦ none ]

-- A ship with no node that is for the scheduler of this name.
unfoldable pub is_unscheduled : String → Ship → Bool
is_unscheduled scheduler ship =
    is_none_or (do spec ← ship.spec; spec.node_name) is_blank
    && is_none_or (do spec ← ship.spec; spec.scheduler_name) (λ n. is_blank n || n == scheduler)

-- `continue`, or the claim to annotate.
pub claim_to_annotate : SchedulingContext → String → PersistentVolumeClaim → Option String
claim_to_annotate ctx node_name pvc =
    if not (is_unbound_wffc_claim ctx pvc) || is_named (selected_node pvc) node_name
    then none
    else meta_name pvc.object_meta

module _ (server : Server) where
  abbrev World : Type 0
  World = server.World

  -- One request; its answer is only logged.
  abbrev send : World → Request → List Request × World
  send w request = (request ∷ [], (server.call w request).1)

  update_ship_scheduling_status : World → Time → Ship → String → List Request × World
  update_ship_scheduling_status w now ship message = send w (
      replace_status (ship_namespace_or_default ship) (ship_name_or_unknown ship) (
        append_ship_condition ship (record {
          status = condition_scheduling_blocked;
          message = message;
          timestamp = some now;
        })))

  -- A success goes on with the rest of the loop, and a failure ends it.
  after_answer :
      Response → Request → World → Bool × List Request × World → Bool × List Request × World
  after_answer ok request w (done, requests, w') = (done, request ∷ requests, w')
  after_answer (err code) request w rest = (false, request ∷ [], w)

  -- The loop of `annotate_wffc_claims`; true if no request failed. The first failure ends it.
  annotate_loop :
      SchedulingContext
      → String
      → String
      → World
      → List PersistentVolumeClaim
      → Bool × List Request × World
  annotate_loop ctx namespace node_name w [] = (true, [], w)
  annotate_loop ctx namespace node_name w (pvc ∷ pvcs) =
      elim (claim_to_annotate ctx node_name pvc) [
        | none ↦ annotate_loop ctx namespace node_name w pvcs
        | some name ↦
            let request = annotate_claim namespace name node_name in
            let (answer, w') = server.call w request in
            after_answer answer request w' (annotate_loop ctx namespace node_name w' pvcs)
      ]

  -- The binding is sent if no annotation failed; its answer is only logged.
  after_annotating : Request → Bool × List Request × World → List Request × World
  after_annotating binding (true, requests, w) =
      (requests ++ binding ∷ [], (server.call w binding).1)
  after_annotating binding (false, requests, w) = (requests, w)

  bind_to : World → SchedulingContext → Node → List Request × World
  bind_to w ctx node =
      let node_name = unwrap_or (meta_name node.object_meta) "unknown" in
      let namespace = ship_namespace_or_default ctx.ship in
      after_annotating
        (replace_ship namespace (ship_name_or_unknown ctx.ship) (bind_ship ctx.ship node_name))
        (annotate_loop ctx namespace node_name w (ship_persistent_volume_claims ctx))

  place_ship : World → Framework → Cache → SchedulingContext → List Request × World
  place_ship w fw cache ctx = elim (schedule fw ctx cache.nodes) [
    | none ↦ ([], w)
    | some node ↦ bind_to w ctx node
  ]

  class_not_found : String → String
  class_not_found name = String.◌++◌ "ShipClass '" (String.◌++◌ name "' not found")

  runtime_class_not_found : String → String
  runtime_class_not_found name = String.◌++◌ "RuntimeClass '" (String.◌++◌ name "' not found")

  unfoldable pub schedule_ship : World → Time → Framework → Cache → Ship → List Request × World
  unfolding update_ship_scheduling_status after_answer after_annotating missing_runtime_class
      place_ship bind_to annotate_loop claim_to_annotate class_not_found runtime_class_not_found
  schedule_ship w now fw cache ship = elim (cached_ship_class cache (ship_class_name ship)) [
    | none ↦ update_ship_scheduling_status w now ship (class_not_found (ship_class_name ship))
    | some ship_class ↦ elim (missing_runtime_class cache ship) [
      | some name ↦ update_ship_scheduling_status w now ship (runtime_class_not_found name)
      | none ↦ place_ship w fw cache (context_of cache ship ship_class)
    ]
  ]

  -- The ships of a round in the order of the cache, each scheduled against the same cache.
  schedule_each : World → Time → Framework → Cache → List Ship → List Request × World
  schedule_each w now fw cache [] = ([], w)
  schedule_each w now fw cache (ship ∷ ships) =
      let (requests, w') = schedule_ship w now fw cache ship in
      let (more, w'') = schedule_each w' now fw cache ships in (requests ++ more, w'')

  -- One round of the loop of `run` after the lease was tried: nothing unless this scheduler leads
  -- and the cache could be refreshed (`none` stands for a failed refresh).
  unfoldable pub run_round :
      World → Time → Framework → String → Bool → Option Cache → List Request × World
  unfolding schedule_each is_unscheduled
  run_round w now fw scheduler false refreshed = ([], w)
  run_round w now fw scheduler true none = ([], w)
  run_round w now fw scheduler true (some cache) =
      schedule_each w now fw cache (filter (is_unscheduled scheduler) cache.ships)
