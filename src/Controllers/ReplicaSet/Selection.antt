-- ===== src/Controllers/ReplicaSet/Selection.antt =====
-- Which ships a replica set gives up, and that it counts the ones that it builds.
use Prim.Native.Nat.{ℕ, zero, suc, ◌-◌, ◌≤◌, min}
use tugboat.Base.{
  ◌≡◌, refl, ◌∙◌, inl, inr, String, true, false, not, none, some, List, [], ◌∷◌, Memᴰ, arith,
  Bool-cases, leb, unwrap_or,
}
use text.Mathlib.TextPositions.{eq_refl}
use tugboat.Base.Lists.{filter, length, take, mem-filter, all_of_each}
use tugboat.Base.Dict.{Dict, get, insert, get-insert}
use tugboat.Manifests.Meta.{default_meta, is_named}
use tugboat.Manifests.Ship.{Ship}
use tugboat.Manifests.Workload.{ReplicaSet, ShipTemplateSpec}
use tugboat.Controllers.Workload.{
  SortKey, ltb_key, insert_reverse, sort_by_key_reverse, matches_selector,
}
use tugboat.Controllers.ReplicaSet.{
  excess_ships_to_delete, has_active_migration, ship_creation_sort_key, extend, selector_of,
  build_ship, ship_matches_selector,
}

module _ {ℓ} {A : Type ℓ} where
  pub length-take : (n : ℕ) (xs : List A) → length (take n xs) ≤ n
  length-take zero xs = omega arith
  length-take (suc n) [] = omega arith
  length-take (suc n) (x ∷ xs) = omega (arith, length-take n xs)

  mem-take : (n : ℕ) (xs : List A) {a : A} → Memᴰ a (take n xs) → Memᴰ a xs
  mem-take zero xs m = elim m [ ]
  mem-take (suc n) [] m = elim m [ ]
  mem-take (suc n) (x ∷ xs) (Memᴰ.head e) = Memᴰ.head e
  mem-take (suc n) (x ∷ xs) (Memᴰ.tail m) = Memᴰ.tail (mem-take n xs m)

  mem_swapped :
      {x y a : A} (inserted : List A) {ys : List A}
      → (Memᴰ a inserted → Memᴰ a (x ∷ ys))
      → Memᴰ a (y ∷ inserted)
      → Memᴰ a (x ∷ y ∷ ys)
  mem_swapped inserted ih (Memᴰ.head e) = Memᴰ.tail (Memᴰ.head e)
  mem_swapped inserted ih (Memᴰ.tail k) = elim (ih k) [
    | Memᴰ.head e ↦ Memᴰ.head e
    | Memᴰ.tail k' ↦ Memᴰ.tail (Memᴰ.tail k')
  ]

  module _ (key : A → SortKey) where
    mem-insert_reverse :
        (x : A) (xs : List A) {a : A} → Memᴰ a (insert_reverse key x xs) → Memᴰ a (x ∷ xs)
    unfolding insert_reverse
    mem-insert_reverse x [] m = m
    mem-insert_reverse x (y ∷ ys) m = elim (Bool-cases (ltb_key (key x) (key y))) [
      | inl e ↦
          mem_swapped (insert_reverse key x ys) (mem-insert_reverse x ys)
            (rw (e, insert_reverse) at m)
      | inr e ↦ rw (e, insert_reverse) at m
    ]

    mem-sort_by_key_reverse :
        (xs : List A) {a : A} → Memᴰ a (sort_by_key_reverse key xs) → Memᴰ a xs
    unfolding sort_by_key_reverse
    mem-sort_by_key_reverse [] m = m
    mem-sort_by_key_reverse (x ∷ xs) m =
        elim (mem-insert_reverse x (sort_by_key_reverse key xs) m) [
          | Memᴰ.head e ↦ Memᴰ.head e
          | Memᴰ.tail k ↦ Memᴰ.tail (mem-sort_by_key_reverse xs k)
        ]

-- No more ships are given up than there are too many.
pub length-excess_ships_to_delete :
    (owned : List Ship) (desired : ℕ)
    → length (excess_ships_to_delete owned desired) ≤ length owned - desired
unfolding excess_ships_to_delete
length-excess_ships_to_delete owned desired = elim (Bool-cases (leb (length owned) desired)) [
  | inl e ↦ rw (e, excess_ships_to_delete) (omega arith)
  | inr e ↦
      let sorted =
        sort_by_key_reverse ship_creation_sort_key
          (filter (λ ship. not (has_active_migration ship)) owned) in
      let most = length-take (min (length owned - desired) (length sorted)) sorted in
      rw (e, excess_ships_to_delete) (omega arith)
]

-- A ship that is given up is one of those at hand, and does not migrate.
pub mem-excess_ships_to_delete :
    (owned : List Ship) (desired : ℕ) {ship : Ship}
    → Memᴰ ship (excess_ships_to_delete owned desired)
    → Memᴰ ship owned × (has_active_migration ship ≡ false)
unfolding excess_ships_to_delete
mem-excess_ships_to_delete owned desired {ship} m = elim (Bool-cases (leb (length owned) desired)) [
  | inl e ↦
      let none_given : Memᴰ ship [] = rw (e, excess_ships_to_delete) at m in elim none_given [ ]
  | inr e ↦
      let candidates = filter (λ s. not (has_active_migration s)) owned in
      let sorted = sort_by_key_reverse ship_creation_sort_key candidates in
      let taken =
        mem-take (min (length owned - desired) (length sorted)) sorted
          (rw (e, excess_ships_to_delete) at m) in
      let (there, still) =
        mem-filter (λ s. not (has_active_migration s)) owned
          (mem-sort_by_key_reverse ship_creation_sort_key candidates taken) in
      (there, ground arith)
]

-- A selector names each key once, as a map does.
pub data HasOnce : Dict String → Type 0 where
  no_entry : HasOnce []
  one_entry :
      (key value : String) (more : Dict String)
      → get key more ≡ none
      → HasOnce more
      → HasOnce ((key, value) ∷ more)

get-extend_other :
    (labels selector : Dict String) (k : String)
    → get k selector ≡ none
    → get k (extend labels selector) ≡ get k labels
get-extend_other labels [] k h = refl
get-extend_other labels ((j, w) ∷ more) k h =
    let rest = get-extend_other (insert j w labels) more k (ground arith) in
    let kept : get k (insert j w labels) ≡ get k labels = ground (arith, get-insert j k w labels) in
    rest ∙ kept

get-extend :
    (labels selector : Dict String)
    → HasOnce selector
    → (entry : String × String) → Memᴰ entry selector
    → get entry.0 (extend labels selector) ≡ some entry.1
get-extend labels _ no_entry entry m = elim m [ ]
get-extend labels _ (one_entry key value more free once) entry (Memᴰ.head e) =
    let here : get key (insert key value labels) ≡ some value =
      get-insert key key value labels ∙ rw (eq_refl key) refl in
    rw e (get-extend_other (insert key value labels) more key free ∙ here)
get-extend labels _ (one_entry key value more free once) entry (Memᴰ.tail m) =
    get-extend (insert key value labels) more once entry m

-- A ship that the controller builds for a replica set is one that the replica set's selector
-- matches, whatever the template's labels are, so it is counted from then on.
pub ship_matches_selector-build_ship :
    (rs : ReplicaSet) (template : ShipTemplateSpec) (suffix : String)
    → HasOnce (selector_of rs.spec)
    → ship_matches_selector (build_ship rs template suffix) (selector_of rs.spec) ≡ true
unfolding ship_matches_selector build_ship matches_selector
ship_matches_selector-build_ship rs template suffix once =
    let labels = (unwrap_or template.metadata default_meta).labels in
    let selector = selector_of rs.spec in
    all_of_each (λ entry. is_named (get entry.0 (extend labels selector)) entry.1) selector
      (λ entry m. rw (get-extend labels selector once entry m) (eq_refl entry.1))
