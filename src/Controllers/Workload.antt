-- ===== src/Controllers/Workload.antt =====
-- tugboat-controller-manager/src/workload/mod.rs: selectors, owners and the order of creation.
use Prim.Native.Nat.{Ordering}
use Prim.Native.String.{compare}
use tugboat.Base.{
  String, Bool, true, false, ◌&&◌, Option, none, some, List, [], ◌∷◌, ◌==◌, is_some_and, unwrap_or,
  if◌then◌else◌,
}
use tugboat.Base.Lists.{all, any}
use tugboat.Base.Text.{is_blank}
use tugboat.Base.Dict.{Dict, get}
use tugboat.Base.Int.{ℤ, pos, ltb_ℤ}
use tugboat.Manifests.Meta.{ObjectMeta, OwnerReference, Time, is_named, meta_name}

unfoldable pub matches_selector : Dict String → Dict String → Bool
matches_selector labels selector =
    all (λ (entry : String × String). is_named (get entry.0 labels) entry.1) selector

abbrev pub meta_uid : Option ObjectMeta → Option String
meta_uid none = none
meta_uid (some meta) = meta.uid

-- The reference names the owner by its uid, or by none if the owner has none.
abbrev names_uid : Option String → OwnerReference → Bool
names_uid none reference = is_blank reference.uid
names_uid (some uid) reference = reference.uid == uid

-- `is_controlled_by(meta, owner, owner_kind)`, where the second argument is the owner's metadata.
unfoldable pub is_controlled_by : Option ObjectMeta → Option ObjectMeta → String → Bool
is_controlled_by meta owner owner_kind = is_some_and meta (λ m.
    any
      (λ (reference : OwnerReference).
        reference.kind == owner_kind
        && reference.name == unwrap_or (meta_name owner) ""
        && names_uid (meta_uid owner) reference)
      m.owner_references)

-- `owner_reference_for`, with the type's version and kind and the owner's metadata.
unfoldable pub owner_reference_for : String → String → Option ObjectMeta → OwnerReference
owner_reference_for api_version kind meta = record {
  api_version = api_version;
  kind = kind;
  name = unwrap_or (meta_name meta) "";
  uid = unwrap_or (meta_uid meta) "";
  controller = some true;
}

abbrev pub SortKey : Type 0
SortKey = ℤ × ℤ × String

abbrev creation_time : Option ObjectMeta → Option Time
creation_time none = none
creation_time (some meta) = meta.creation_timestamp

abbrev time_key : Option Time → String → SortKey
time_key none name = (pos 0, pos 0, name)
time_key (some time) name = (time.seconds, time.nanos, name)

unfoldable pub creation_sort_key : Option ObjectMeta → Option String → SortKey
creation_sort_key meta name = time_key (creation_time meta) (unwrap_or name "")

ltb_text : String → String → Bool
ltb_text a b = elim (compare a b) [ Ordering.lt ↦ true | Ordering.eq ↦ false | Ordering.gt ↦ false ]

-- The lexicographic order of the keys, as Rust's tuples have it.
unfoldable pub ltb_key : SortKey → SortKey → Bool
unfolding ltb_text
ltb_key (s, n, a) (t, m, b) =
    if ltb_ℤ s t
    then true
    else if ltb_ℤ t s
    then false
    else if ltb_ℤ n m
    then true
    else if ltb_ℤ m n
    then false
    else ltb_text a b

-- Rust's stable sorts, and its greatest entry, by the key of creation.
module _ {ℓ} {A : Type ℓ} (key : A → SortKey) where
  -- `sort_by_key`: an entry is put in front of those that are not smaller.
  unfoldable pub insert_back : A → List A → List A
  unfolding ltb_key
  insert_back x [] = x ∷ []
  insert_back x (y ∷ ys) =
      let rest = insert_back x ys in if ltb_key (key y) (key x) then y ∷ rest else x ∷ y ∷ ys

  unfoldable pub sort_by_key : List A → List A
  unfolding insert_back
  sort_by_key [] = []
  sort_by_key (x ∷ xs) = insert_back x (sort_by_key xs)

  -- `sort_by_key` with `Reverse`: greater keys come first, equal ones stay as they were.
  unfoldable pub insert_reverse : A → List A → List A
  unfolding ltb_key
  insert_reverse x [] = x ∷ []
  insert_reverse x (y ∷ ys) =
      let rest = insert_reverse x ys in if ltb_key (key x) (key y) then y ∷ rest else x ∷ y ∷ ys

  unfoldable pub sort_by_key_reverse : List A → List A
  unfolding insert_reverse
  sort_by_key_reverse [] = []
  sort_by_key_reverse (x ∷ xs) = insert_reverse x (sort_by_key_reverse xs)

  -- `max_by_key`: the last of those with the greatest key.
  unfoldable pub max_by_key : List A → Option A
  unfolding ltb_key
  max_by_key [] = none
  max_by_key (x ∷ xs) = elim (max_by_key xs) [
    | none ↦ some x
    | some y ↦ if ltb_key (key y) (key x) then some x else some y
  ]
