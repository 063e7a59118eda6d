-- ===== src/Controllers/Examples.antt =====
-- The controllers' theorems at small workloads.
use tugboat.Base.{
  ℕ, ◌+◌, ◌-◌, ◌^◌, ◌≡◌, inr, refl, String, true, false, none, some, List, [], ◌∷◌, Memᴰ, arith,
}
use tugboat.Base.Int.{pos, InI32, ◌≤ℤ◌, ◌<ℤ◌, ◌+ℤ◌, ◌-ℤ◌, wrap_i32}
use tugboat.Base.Dict.{Dict}
use tugboat.Manifests.Meta.{default_meta}
use tugboat.Manifests.Ship.{Ship}
use tugboat.Manifests.Workload.{ReplicaSet, ReplicaSetSpec, ShipTemplateSpec, Deployment}
use tugboat.Controllers.Deployment.{
  next_rolling_update_rotation_targets, rolling_update_limits, sum_status_replicas,
  desired_replicas, replicaset_spec_replicas, replicaset_status_replicas, replicaset_ready_replicas,
  removal_loop, sum_ready_replicas,
}
use tugboat.Controllers.Deployment.Exact.{IsInRange}
use tugboat.Controllers.Deployment.Rotation.{
  IsWithinLimits, next_rolling_update_rotation_targets-IsWithinLimits,
}
use tugboat.Controllers.Deployment.Progress.{
  IsSettled, Changes, next_rolling_update_rotation_targets-Changes,
}
use tugboat.Controllers.ReplicaSet.{ShipApi, api_status, build_ship, ship_matches_selector}
use tugboat.Controllers.ReplicaSet.Selection.{no_entry, one_entry, ship_matches_selector-build_ship}

abbrev web_selector : Dict String
web_selector = ("app", "web") ∷ []

abbrev web_spec : ReplicaSetSpec
web_spec = record { replicas = some (pos 2); selector = web_selector; ship_template = none }

-- A replica set with as many ready ships as it asks for.
abbrev replica_set : String → ℕ → ReplicaSet
replica_set name n = record {
  object_meta = some (record default_meta { name = some name; uid = some name });
  spec = some (record web_spec { replicas = some (pos n) });
  status = some (record { replicas = pos n; ready_replicas = pos n });
}

abbrev web : Deployment
web = record {
  object_meta = some (record default_meta { name = some "web" });
  spec = some (record {
    replicas = some (pos 3);
    selector = web_selector;
    strategy = none;
    revision_history_limit = none;
  });
}

rotation_tests :
    (next_rolling_update_rotation_targets web (replica_set "new" 0) (replica_set "old" 3 ∷ [])
      ≡ (some (pos 1), [], true))
    × (next_rolling_update_rotation_targets web (replica_set "new" 1) (replica_set "old" 3 ∷ [])
        ≡ (none, ("old", pos 1) ∷ [], true))
    × (next_rolling_update_rotation_targets web (replica_set "new" 3) [] ≡ (none, [], false))
unfolding next_rolling_update_rotation_targets rolling_update_limits sum_status_replicas
    desired_replicas replicaset_spec_replicas replicaset_status_replicas replicaset_ready_replicas
    removal_loop sum_ready_replicas wrap_i32 ◌+ℤ◌ ◌-ℤ◌
rotation_tests = (refl, refl, refl)

old_counts :
    (rs : ReplicaSet)
    → Memᴰ rs (replica_set "old" 3 ∷ [])
    → InI32 (replicaset_spec_replicas rs)
      × (pos 0 ≤ℤ replicaset_status_replicas rs)
      × (pos 0 ≤ℤ replicaset_ready_replicas rs)
unfolding replicaset_spec_replicas replicaset_status_replicas replicaset_ready_replicas
old_counts rs (Memᴰ.head e) = rw e ((omega arith, omega arith), omega arith, omega arith)
old_counts rs (Memᴰ.tail m) = elim m [ ]

web-IsInRange : IsInRange web (replica_set "new" 1) (replica_set "old" 3 ∷ [])
unfolding desired_replicas rolling_update_limits replicaset_spec_replicas replicaset_status_replicas
    replicaset_ready_replicas ◌+ℤ◌
web-IsInRange = record {
  wanted = omega arith;
  unavailable = omega arith;
  asked = (omega arith, omega arith);
  old_asked = λ rs m. (old_counts rs m).0;
  status = omega arith;
  ready = omega arith;
  old_status = λ rs m. (old_counts rs m).1;
  old_ready = λ rs m. (old_counts rs m).2;
  counted = omega arith;
  counted_ready = omega arith;
}

-- With the greatest i32 as the desired number the room for new replicas wraps to below 0, so that
-- nothing is scaled.
abbrev huge : Deployment
huge = record web {
  spec = some (record {
    replicas = some (pos (2 ^ 31 - 1));
    selector = web_selector;
    strategy = none;
    revision_history_limit = none;
  });
}

huge_stands_still :
    next_rolling_update_rotation_targets huge (replica_set "new" 0) [] ≡ (none, [], true)
unfolding next_rolling_update_rotation_targets rolling_update_limits sum_status_replicas
    desired_replicas replicaset_spec_replicas replicaset_status_replicas replicaset_ready_replicas
    removal_loop sum_ready_replicas wrap_i32 ◌+ℤ◌ ◌-ℤ◌
huge_stands_still = refl

next_rolling_update_rotation_targets-IsWithinLimits_example :
    IsWithinLimits web
      (replica_set "new" 1)
      (replica_set "old" 3 ∷ [])
      (next_rolling_update_rotation_targets web (replica_set "new" 1) (replica_set "old" 3 ∷ []))
next_rolling_update_rotation_targets-IsWithinLimits_example =
    next_rolling_update_rotation_targets-IsWithinLimits web (replica_set "new" 1)
      (replica_set "old" 3 ∷ []) web-IsInRange

replica_set-IsSettled : (name : String) (n : ℕ) → IsSettled (replica_set name n)
unfolding replicaset_spec_replicas replicaset_status_replicas replicaset_ready_replicas
replica_set-IsSettled name n = record { counted = refl; ready = refl; not_negative = omega arith }

old-IsSettled : (rs : ReplicaSet) → Memᴰ rs (replica_set "old" 3 ∷ []) → IsSettled rs
old-IsSettled rs (Memᴰ.head e) = rw e (replica_set-IsSettled "old" 3)
old-IsSettled rs (Memᴰ.tail m) = elim m [ ]

web_slack : pos 0 <ℤ (rolling_update_limits web).0 +ℤ (rolling_update_limits web).1
unfolding rolling_update_limits ◌+ℤ◌
web_slack = omega arith

web_incomplete : replicaset_spec_replicas (replica_set "new" 1) <ℤ desired_replicas web
unfolding replicaset_spec_replicas desired_replicas
web_incomplete = omega arith

next_rolling_update_rotation_targets-Changes_example :
    Changes
      (next_rolling_update_rotation_targets web (replica_set "new" 1) (replica_set "old" 3 ∷ []))
next_rolling_update_rotation_targets-Changes_example =
    next_rolling_update_rotation_targets-Changes web (replica_set "new" 1)
      (replica_set "old" 3 ∷ []) web-IsInRange (replica_set-IsSettled "new" 1) old-IsSettled
      web_slack (inr web_incomplete)

-- Ships are numbered; the world counts the calls, and each name is taken once.
abbrev counting_api : ShipApi
counting_api = record {
  World = ℕ;
  generate_suffix = λ w. ("abcde", w);
  create = λ w ship. (some (api_status 409), w + 1);
  delete = λ w name. (none, w + 1);
}

abbrev web_ship : String → Ship
web_ship name = record {
  object_meta = some (record default_meta { name = some name; labels = web_selector });
  spec = none;
  status = none;
}

abbrev three_ships : List Ship
three_ships = web_ship "a" ∷ web_ship "b" ∷ web_ship "c" ∷ []

abbrev labelled_template : ShipTemplateSpec
labelled_template = record {
  metadata = some (record default_meta { labels = ("app", "old") ∷ [] });
  spec = none;
}

ship_matches_selector-build_ship_example :
    ship_matches_selector (build_ship (replica_set "web" 2) labelled_template "abcde") web_selector
    ≡ true
ship_matches_selector-build_ship_example =
    ship_matches_selector-build_ship (replica_set "web" 2) labelled_template "abcde"
      (one_entry "app" "web" [] refl no_entry)
