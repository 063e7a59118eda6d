-- ===== src/Controllers/ReplicaSet/Scaling.antt =====
-- What `reconcile_ship_count` may create and delete.
use Prim.Native.Nat.{ℕ, ◌-◌, ◌≤◌}
use tugboat.Base.{◌≡◌, String, Bool, true, false, Option, none, some, List, Memᴰ}
use tugboat.Base.Lists.{length, count}
use tugboat.Manifests.Meta.{meta_name}
use tugboat.Manifests.Ship.{Ship}
use tugboat.Manifests.Workload.{ReplicaSet}
use tugboat.Controllers.ReplicaSet.{has_active_migration, ApiError, Call, created, deleted}

abbrev pub is_creation : Call → Bool
is_creation (created ship) = true
is_creation (deleted name) = false

abbrev pub is_deletion : Call → Bool
is_deletion (created ship) = false
is_deletion (deleted name) = true

-- The calls bring the number of ships towards the desired one, never past it, and delete only ships
-- at hand that do not migrate.
pub record IsScaling (matching : List Ship) (desired : ℕ) (calls : List Call) : Type 0 where
  pub creates : count is_creation calls ≤ desired - length matching
  pub deletes : count is_deletion calls ≤ length matching - desired
  pub spares :
      (name : String)
      → Memᴰ (deleted name) calls
      → (ship : Ship) × Memᴰ ship matching
        × (meta_name ship.object_meta ≡ some name)
        × (has_active_migration ship ≡ false)

abbrev Creates : ℕ → List Call → Option ApiError → Type 0
Creates n calls failure =
    (count is_creation calls ≤ n)
    × (count is_deletion calls ≡ 0)
    × (failure ≡ none → count is_creation calls ≡ n)

abbrev Deletes : List Ship → List Call → Type 0
Deletes ships calls =
    (count is_creation calls ≡ 0)
    × (count is_deletion calls ≤ length ships)
    × ((name : String)
        → Memᴰ (deleted name) calls
        → (ship : Ship) × Memᴰ ship ships × (meta_name ship.object_meta ≡ some name))
