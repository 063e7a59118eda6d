-- ===== src/Controllers/ReplicaSet.antt =====
-- tugboat-controller-manager/src/replicaset: scale.rs, ship_builder.rs and status.rs. The API and the
-- random suffix of a name are a parameter that moves a world on; what was called is returned too.
pub mod Scaling
pub mod Selection
use Prim.Native.String
use tugboat.Base.{
  ℕ, zero, suc, ◌-◌, min, String, Bool, true, false, not, ◌&&◌, ◌||◌, Option, none, some, List, [],
  ◌∷◌, ◌++◌, ◌>>=◌, ◌==◌, is_some_and, unwrap_or, leb, ltb, eqb, if◌then◌else◌,
}
use tugboat.Base.Lists.{any, filter, length, take, count}
use tugboat.Base.Results.{Result, ok, err}
use tugboat.Base.Int.{ℤ, pos}
use tugboat.Base.Dict.{Dict, insert}
use tugboat.Manifests.Meta.{ObjectMeta, OwnerReference, default_meta, meta_name, meta_namespace}
use tugboat.Manifests.Ship.{
  Ship, ShipSpec, ShipStatus, ShipMigrationStatus, ShipCondition, default_ship_spec,
}
use tugboat.Manifests.Workload.{ReplicaSet, ReplicaSetSpec, ReplicaSetStatus, ShipTemplateSpec}
use tugboat.Client.Runner.{Action, requeue}
use tugboat.Controllers.Workload.{
  matches_selector, creation_sort_key, SortKey, sort_by_key_reverse, owner_reference_for, meta_uid,
}

abbrev pub meta_matches : Option ObjectMeta → Dict String → Bool
meta_matches meta selector = is_some_and meta (λ m. matches_selector m.labels selector)

unfoldable pub ship_matches_selector : Ship → Dict String → Bool
ship_matches_selector ship selector = meta_matches ship.object_meta selector

unfoldable pub owned_ships : List Ship → Dict String → List Ship
unfolding ship_matches_selector
owned_ships ships selector = filter (λ ship. ship_matches_selector ship selector) ships

abbrev pub refers_to : String → Option ObjectMeta → Bool
refers_to uid meta =
    is_some_and meta (λ m. any (λ (r : OwnerReference). r.uid == uid) m.owner_references)

unfoldable pub is_owned_by_replicaset : Ship → ReplicaSet → Bool
is_owned_by_replicaset ship rs = elim (meta_uid rs.object_meta) [
  | none ↦ false
  | some uid ↦ refers_to uid ship.object_meta
]

-- `ShipMigrationExt::has_active_migration`.
abbrev is_active_phase : String → Bool
is_active_phase phase = phase == "Pending" || phase == "Ready" || phase == "Migrating"

unfoldable pub has_active_migration : Ship → Bool
has_active_migration ship =
    is_some_and ship.status (λ s. is_some_and s.migration (λ m. is_active_phase m.phase))

unfoldable pub ship_creation_sort_key : Ship → SortKey
unfolding creation_sort_key
ship_creation_sort_key ship = creation_sort_key ship.object_meta (meta_name ship.object_meta)

unfoldable pub excess_ships_to_delete : List Ship → ℕ → List Ship
unfolding has_active_migration sort_by_key_reverse ship_creation_sort_key
excess_ships_to_delete owned desired =
    let candidates = filter (λ ship. not (has_active_migration ship)) owned in
    let sorted = sort_by_key_reverse ship_creation_sort_key candidates in
    if leb (length owned) desired
    then []
    else take (min (length owned - desired) (length sorted)) sorted

unfoldable pub ship_is_ready : Ship → Bool
ship_is_ready ship =
    is_some_and ship.status
      (λ s. any (λ (condition : ShipCondition). condition.status == "Running") s.conditions)

unfoldable pub build_replicaset_status : List Ship → ReplicaSetStatus
unfolding ship_is_ready
build_replicaset_status owned = record {
  replicas = pos (length owned);
  ready_replicas = pos (count ship_is_ready owned);
}

-- `labels.extend(selector)`.
abbrev pub extend : Dict String → Dict String → Dict String
extend labels [] = labels
extend labels ((key, value) ∷ more) = extend (insert key value labels) more

abbrev pub selector_of : Option ReplicaSetSpec → Dict String
selector_of none = []
selector_of (some spec) = spec.selector

abbrev pub default_template : ShipTemplateSpec
default_template = record { metadata = none; spec = none }

-- `build_ship` with the suffix that `generate_suffix` gives.
unfoldable pub build_ship : ReplicaSet → ShipTemplateSpec → String → Ship
unfolding owner_reference_for
build_ship rs template suffix =
    let metadata = unwrap_or template.metadata default_meta in
    let rs_name = unwrap_or (meta_name rs.object_meta) "" in
    record {
      object_meta = some (record metadata {
        name = some (String.◌++◌ rs_name (String.◌++◌ "-" suffix));
        namespace = meta_namespace rs.object_meta;
        labels = extend metadata.labels (selector_of rs.spec);
        owner_references =
            metadata.owner_references
            ++ owner_reference_for "apps/v1" "ReplicaSet" rs.object_meta ∷ [];
      });
      spec = some (unwrap_or template.spec default_ship_spec);
      status = none;
    }

-- The client's errors: a status that the API answered with, or another failure.
pub data ApiError : Type 0 where
  api_status : ℕ → ApiError
  other_error : String → ApiError

pub record ShipApi : Type 1 where
  pub World : Type 0
  pub generate_suffix : World → String × World
  pub create : World → Ship → Option ApiError × World
  pub delete : World → String → Option ApiError × World

pub data Call : Type 0 where
  created : Ship → Call
  deleted : String → Call

-- The error that ends the loop: all but one status, which is as good as success.
abbrev pub unless_status : ℕ → Option ApiError → Option ApiError
unless_status code none = none
unless_status code (some (api_status c)) = if eqb c code then none else some (api_status c)
unless_status code (some (other_error e)) = some (other_error e)

module _ (api : ShipApi) where
  abbrev Loop : Type 0
  Loop = Option ApiError × List Call × api.World

  -- What goes on after a call, unless it failed.
  abbrev pub continue_with : Call → Option ApiError → api.World → Loop → Loop
  continue_with call (some e) w rest = (some e, call ∷ [], w)
  continue_with call none w rest = (rest.0, call ∷ rest.1, rest.2)

  unfoldable pub create_loop : ReplicaSet → ShipTemplateSpec → ℕ → api.World → Loop
  unfolding build_ship
  create_loop rs template zero w = (none, [], w)
  create_loop rs template (suc n) w =
      let (suffix, w1) = api.generate_suffix w in
      let ship = build_ship rs template suffix in
      let (answer, w2) = api.create w1 ship in
      continue_with (created ship) (unless_status 409 answer) w2 (create_loop rs template n w2)

  -- `delete_ship_ignore_not_found` for each ship with a name.
  unfoldable pub delete_loop : List Ship → api.World → Loop
  delete_loop [] w = (none, [], w)
  delete_loop (ship ∷ more) w = elim (meta_name ship.object_meta) [
    | none ↦ delete_loop more w
    | some name ↦
        let (answer, w') = api.delete w name in
        continue_with (deleted name) (unless_status 404 answer) w' (delete_loop more w')
  ]

  abbrev pub Outcome : Type 0
  Outcome = Result ApiError (Option Action) × List Call × api.World

  -- `?` at the end of the loop that deletes; fewer ships than wanted ask for another try.
  abbrev pub after_deleting : Bool → Loop → Outcome
  after_deleting is_short (some e, calls, w) = (err e, calls, w)
  after_deleting is_short (none, calls, w) =
      (ok (if is_short then some (requeue 5000) else none), calls, w)

  abbrev pub after_creating : Loop → Outcome → Outcome
  after_creating (some e, calls, w) rest = (err e, calls, w)
  after_creating (none, calls, w) rest = (rest.0, calls ++ rest.1, rest.2)

  -- The part of `reconcile_ship_count` behind the loop that creates.
  unfoldable pub delete_excess : List Ship → ℕ → api.World → Outcome
  unfolding delete_loop
  delete_excess matching desired w =
      let to_delete = excess_ships_to_delete matching desired in
      let is_short = ltb (length to_delete) (length matching - desired) in
      let deleting = after_deleting is_short (delete_loop to_delete w) in
      if leb (length matching) desired then (ok none, [], w) else deleting

  unfoldable pub reconcile_ship_count :
      api.World → ReplicaSet → ReplicaSetSpec → List Ship → ℕ → Outcome
  unfolding create_loop delete_excess
  reconcile_ship_count w rs rs_spec matching desired =
      let template = unwrap_or rs_spec.ship_template default_template in
      let creating = create_loop rs template (desired - length matching) w in
      after_creating creating (delete_excess matching desired creating.2)
