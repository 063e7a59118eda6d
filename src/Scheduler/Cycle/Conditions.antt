-- ===== src/Scheduler/Cycle/Conditions.antt =====
-- The conditions of a ship's status, as `upsert_ship_condition` of
-- tugboat-scheduler/src/scheduler.rs keeps them.
use tugboat.Base.{
  max, ◌≡◌, refl, String, Bool, false, some, List, [], ◌∷◌, find, count, arith, Bool-cases, inl,
  inr, ◌==◌, eq_iff, if◌then◌else◌,
}
use text.Mathlib.TextPositions.{eq_refl}
use tugboat.Manifests.Ship.{ShipCondition}
use tugboat.Scheduler.Cycle.{upsert_ship_condition}

abbrev pub has_status : String → ShipCondition → Bool
has_status status condition = condition.status == status

-- Recording a condition twice is the same as recording it once; a repeated report with the message
-- that stands there keeps the time of the first.
pub upsert_ship_condition-idempotent :
    (x y : ShipCondition) (items : List ShipCondition)
    → x.status ≡ y.status
    → x.message ≡ y.message
    → upsert_ship_condition y (upsert_ship_condition x items) ≡ upsert_ship_condition x items
unfolding upsert_ship_condition
upsert_ship_condition-idempotent x y [] s m =
    ground (arith, eq_iff x.status y.status, eq_iff x.message y.message)
upsert_ship_condition-idempotent x y (item ∷ items) s m = ground (
  arith,
  eq_iff x.status y.status,
  eq_iff x.message y.message,
  eq_iff item.status x.status,
  eq_iff item.message x.message,
  eq_iff item.status y.status,
  eq_iff item.message y.message,
  upsert_ship_condition-idempotent x y items s m,
)

-- Recording a condition leaves one entry for its status where there was none, and otherwise changes
-- the number of entries of no status: so a list with at most one entry per status stays one.
pub count-upsert_ship_condition :
    (x : ShipCondition) (items : List ShipCondition) (status : String)
    → count (has_status status) (upsert_ship_condition x items) ≡ (
        if x.status == status
        then max (count (has_status status) items) 1
        else count (has_status status) items)
unfolding upsert_ship_condition
count-upsert_ship_condition x [] status = ground arith
count-upsert_ship_condition x (item ∷ items) status = ground (
  arith,
  eq_iff item.status x.status,
  eq_iff item.status status,
  eq_iff x.status status,
  count-upsert_ship_condition x items status,
)

-- After a condition was recorded, the entry found for its status has its message, and the entry
-- found for any other status is the one that was found before.
pub find-upsert_ship_condition :
    (x : ShipCondition) (items : List ShipCondition)
    → ((c : ShipCondition) × (find (has_status x.status) (upsert_ship_condition x items) ≡ some c)
        × (c.message ≡ x.message))
      × ((status : String)
          → (x.status == status) ≡ false
          → find (has_status status) (upsert_ship_condition x items)
            ≡ find (has_status status) items)
unfolding upsert_ship_condition
find-upsert_ship_condition x [] = ((x, rw (eq_refl x.status), refl), λ status h. ground arith)
find-upsert_ship_condition x (item ∷ items) =
    let (c, found, same) = (find-upsert_ship_condition x items).0 in
    (
      elim (Bool-cases (item.status == x.status)) [
        | inl e ↦ elim (Bool-cases (item.message == x.message)) [
          | inl f ↦ (item, ground arith, (eq_iff item.message x.message).0 f)
          | inr f ↦ (x, rw (e, f, eq_refl x.status), refl)
        ]
        | inr e ↦ (c, ground (arith, found), same)
      ],
      λ status h. ground (
        arith,
        eq_iff item.status x.status,
        eq_iff item.status status,
        eq_iff x.status status,
        (find-upsert_ship_condition x items).1 status h,
      ),
    )
