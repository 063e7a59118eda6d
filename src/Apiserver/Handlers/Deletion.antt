-- ===== src/Apiserver/Handlers/Deletion.antt =====
-- A deletion that succeeds removes a resource without finalizers, and only marks one with them.
use tugboat.Base.{
  ◌≡◌, refl, sym, ◌∙◌, ap, inl, inr, String, Bool, true, false, Option, none, some, List, [], ◌∷◌,
  Memᴰ, arith, Bool-cases, Option-cases,
}
use text.Mathlib.TextPositions.{eq_refl}
use tugboat.Base.Results.{Result, ok, err, >>=-eq-ok, Result-cases, ok_injective}
use tugboat.Base.Decimal.{to_string}
use tugboat.Manifests.Meta.{ObjectMeta, Time}
use tugboat.Manifests.Resource.{has_finalizers, is_deleting, mark_for_deletion, mark_meta}
use tugboat.Manifests.Resource.Marking.{is_deleting-mark_for_deletion, mark_meta_place}
use tugboat.Store.Etcd.{Bytes, KeyValue, Etcd, Behaves, to_list}
use tugboat.Store.Keys.{Error, ResourceType, create_key}
use tugboat.Store.Operations.{
  ContentData, apply_revision, versioned, put, get, delete, prepare_put_inner, PutRequest,
  answer_get, answer_delete, read_first,
}
use tugboat.Store.Atomicity.{Contents}
use tugboat.Store.Locking.{put-stores}
use tugboat.Store.RoundTrip.{prepared}
use tugboat.Apiserver.Handlers.{found_or, after_put, delete_current, after_current, delete_resource}

is_deleting-versioned :
    (version : String) (meta : Option ObjectMeta)
    → is_deleting meta ≡ true
    → is_deleting (versioned version meta) ≡ true
is_deleting-versioned version none h = absurd (cc)
is_deleting-versioned version (some meta) h = h

module _ (etcd : Etcd) (lookup : etcd.World → Contents) (laws : Behaves etcd lookup)
    (R : ResourceType) (equal : R.T → R.T → Bool) where
  -- A value's metadata is read and changed in place.
  unfoldable pub HasMetadata : Type 0
  HasMetadata =
      (change : Option ObjectMeta → Option ObjectMeta) (t : R.T)
      → R.object_meta (R.modify_object_meta change t) ≡ change (R.object_meta t)

  -- What an encoding writes decodes to a resource with the same mark, and so do equal resources have
  -- the same: whether they are being deleted.
  pub record KeepsMarks : Type 0 where
    pub encoded :
        (value : R.T) (bytes : Bytes)
        → R.serialize value ≡ ok bytes
        → (read : R.T) × (R.deserialize bytes ≡ ok read)
          × (is_deleting (R.object_meta read) ≡ is_deleting (R.object_meta value))
    pub equal_marks :
        (a b : R.T)
        → equal a b ≡ true
        → is_deleting (R.object_meta a) ≡ is_deleting (R.object_meta b)

  put_prepared :
      (w w' : etcd.World) (value : R.T) (c : ContentData R.T)
      → put etcd R w value ≡ (ok c, w')
      → (request : PutRequest) × (prepare_put_inner etcd R value ≡ ok request)
  unfolding put
  put_prepared w w' value c h = elim (Result-cases (prepare_put_inner etcd R value)) [
    | inl (e, p) ↦
        let failed : Path (Result Error (ContentData R.T)) (err e) (ok c) =
          ap (λ x. x.0) (rw (p, put) at h) in
        absurd (cc)
    | inr found ↦ found
  ]

  answered_found :
      (w w1 : etcd.World) (key : String) (c : ContentData R.T)
      (answer : Result String (List KeyValue) × etcd.World)
      → etcd.get w key ≡ answer
      → answer_get etcd R answer ≡ (ok (some c), w1)
      → (kv : KeyValue) × (lookup w key ≡ some kv)
        × (R.deserialize kv.value ≡ ok c.content)
        × ((j : String) → lookup w1 j ≡ lookup w j)
  answered_found w w1 key c (err reason, w2) e h = absurd (cc)
  answered_found w w1 key c (ok kvs, w2) e h =
      let (found, kept) = laws.get-finds e in
      let world : w2 ≡ w1 = ap (λ x. x.1) h in
      let first : read_first etcd R kvs ≡ ok (some c) = ap (λ x. x.0) h in
      elim (Option-cases (lookup w key)) [
        | inl n ↦ let empty : kvs ≡ [] = found ∙ ap to_list n in absurd (ground arith)
        | inr (kv, there) ↦
            let one : kvs ≡ kv ∷ [] = found ∙ ap to_list there in
            let (value, decoded, made) = >>=-eq-ok (R.deserialize kv.value) _ (rw one at first) in
            let whole : Path (ContentData R.T)
                (record { content = value; revision = kv.mod_revision }) c =
              cc in
            (
              kv,
              there,
              decoded ∙ ap (λ (x : ContentData R.T). ok x.content) whole,
              λ j. rw (← world) (kept j),
            )
      ]

  answered_deleted :
      (w w' : etcd.World) (key : String) (r : R.T)
      (answer : Result String (_ × List KeyValue) × etcd.World)
      → etcd.delete w key ≡ answer
      → found_or etcd R equal (answer_delete etcd R answer) ≡ (ok r, w')
      → lookup w' key ≡ none
  answered_deleted w w' key r (err reason, w2) e h = absurd (cc)
  answered_deleted w w' key r (ok (n, kvs), w2) e h =
      let (_, gone) = laws.delete-removes e in
      let world : w2 ≡ w' = same_world (read_first etcd R kvs) w2 (ap (λ x. x.1) h) in
      rw (← world) (gone key ∙ rw (eq_refl key) refl)
    where
      same_world :
          (found : Result Error (Option (ContentData R.T))) (w2 : etcd.World)
          → (found_or etcd R equal (found, w2)).1 ≡ w'
          → w2 ≡ w'
      same_world (err e) w2 k = k
      same_world (ok none) w2 k = k
      same_world (ok (some c)) w2 k = k

  module _ (lens : HasMetadata) (marks : KeepsMarks) where
    answered_put :
        (w w' : etcd.World) (pending r : R.T) (meta : ObjectMeta) (name key : String)
        → R.object_meta pending ≡ some meta
        → meta.name ≡ some name
        → create_key R meta.namespace name ≡ ok key
        → is_deleting (some meta) ≡ true
        → (answer : Result Error (ContentData R.T) × etcd.World) → put etcd R w pending ≡ answer
        → after_put etcd R equal answer ≡ (ok r, w')
        → (kv : KeyValue) × (read : R.T) × (lookup w' key ≡ some kv)
          × (R.deserialize kv.value ≡ ok read)
          × (is_deleting (R.object_meta read) ≡ true)
          × (is_deleting (R.object_meta r) ≡ true)
    unfolding HasMetadata apply_revision
    answered_put w w' pending r meta name key has_meta named keyed marked (err e, w2) sent h =
        absurd (cc)
    answered_put w w' pending r meta name key has_meta named keyed marked (ok c, w2) sent h =
        let world : w2 ≡ w' = ap (λ x. x.1) h in
        let same : apply_revision R c ≡ r = ok_injective (ap (λ x. x.0) h) in
        let (request, p) = put_prepared w w2 pending c sent in
        let (content, stored) = put-stores etcd lookup laws R w w2 pending request c p sent in
        let (_, keyed', encoded) =
          prepared etcd lookup laws R pending request meta name p has_meta named in
        let key_same : request.key ≡ key = ok_injective (sym keyed' ∙ keyed) in
        let (kv, there, bytes, _) = stored.stored request (Memᴰ.head refl) in
        let (read, decoded, same_mark) = marks.encoded pending request.bytes encoded in
        let version = to_string c.revision in
        let now_has : R.object_meta r ≡ versioned version (some meta) =
          ap (λ t. R.object_meta t) (sym same)
          ∙ lens (versioned version) c.content
          ∙ ap (λ t. versioned version (R.object_meta t)) content
          ∙ ap (versioned version) has_meta in
        (
          kv,
          read,
          ap (λ k. lookup w' k) (sym key_same) ∙ ap (λ x. lookup x request.key) (sym world) ∙ there,
          rw bytes decoded,
          same_mark ∙ ap is_deleting has_meta ∙ marked,
          rw now_has (is_deleting-versioned version (some meta) marked),
        )

    -- What a deletion that succeeds leaves of the resource under this key: with finalizers it is stored
    -- with the mark of a deletion, which the answer has too, and without it is gone.
    pub data Leaves (w : etcd.World) (key : String) (t r : R.T) : Type 0 where
      kept_marked :
          (kv : KeyValue) (read : R.T)
          → has_finalizers (R.object_meta t) ≡ true
          → lookup w key ≡ some kv
          → R.deserialize kv.value ≡ ok read
          → is_deleting (R.object_meta read) ≡ true
          → is_deleting (R.object_meta r) ≡ true
          → Leaves w key t r
      removed : has_finalizers (R.object_meta t) ≡ false → lookup w key ≡ none → Leaves w key t r

    deleted_current :
        (w w' : etcd.World) (t current r : R.T) (meta : ObjectMeta) (namespace : Option String)
        (name key : String) (now : Time) (kv : KeyValue)
        → create_key R namespace name ≡ ok key
        → R.object_meta current ≡ some meta
        → has_finalizers (R.object_meta t) ≡ has_finalizers (some meta)
        → is_deleting (R.object_meta t) ≡ is_deleting (some meta)
        → R.deserialize kv.value ≡ ok t
        → meta.name ≡ some name
        → meta.namespace ≡ namespace
        → lookup w key ≡ some kv
        → delete_current etcd R equal namespace name now current w ≡ (ok r, w')
        → Leaves w' key t r
    unfolding HasMetadata delete mark_for_deletion
    deleted_current w w' t current r meta namespace name key now kv keyed has_meta same mark decodes
          named placed there h =
        elim (Bool-cases (has_finalizers (some meta))) [
          | inr none_left ↦
              let opened = rw (has_meta, none_left, keyed, delete, delete_current) at h in
              removed (same ∙ none_left)
                (answered_deleted w w' key r (etcd.delete w key) refl opened)
          | inl some_left ↦
              let pending = R.modify_object_meta (λ m. mark_for_deletion m now) current in
              let marked_meta : R.object_meta pending ≡ some (mark_meta meta now) =
                lens (λ m. mark_for_deletion m now) current ∙ rw has_meta refl in
              let marked : is_deleting (some (mark_meta meta now)) ≡ true =
                is_deleting-mark_for_deletion (some meta) now in
              let yes : has_finalizers (R.object_meta t) ≡ true = same ∙ some_left in
              elim (Bool-cases (equal current pending)) [
                | inl e ↦
                    let opened = rw (has_meta, some_left, e, delete_current) at h in
                    let result : pending ≡ r = ok_injective (ap (λ x. x.0) opened) in
                    let before : is_deleting (R.object_meta current) ≡ true =
                      marks.equal_marks current pending e ∙ rw marked_meta marked in
                    kept_marked kv t yes
                      (ap (λ x. lookup x key) (sym (ap (λ x. x.1) opened)) ∙ there) decodes
                      (mark ∙ ap is_deleting (sym has_meta) ∙ before)
                      (ap (λ x. is_deleting (R.object_meta x)) (sym result) ∙ rw marked_meta marked)
                | inr e ↦
                    let opened = rw (has_meta, some_left, e, delete_current) at h in
                    let (kv', read, there', decoded, stored_marked, is_marked) =
                      answered_put w w' pending r (mark_meta meta now) name key marked_meta
                        ((mark_meta_place meta now).0 ∙ named)
                        (ap (λ n. create_key R n name) ((mark_meta_place meta now).1 ∙ placed)
                          ∙ keyed)
                        marked (put etcd R w pending) refl opened in
                    kept_marked kv' read yes there' decoded stored_marked is_marked
              ]
        ]

    deleted_found :
        (w w' : etcd.World) (t r : R.T) (meta : ObjectMeta) (namespace : Option String)
        (name key : String) (now : Time) (kv : KeyValue)
        → create_key R namespace name ≡ ok key
        → lookup w key ≡ some kv
        → R.deserialize kv.value ≡ ok t
        → R.object_meta t ≡ some meta
        → meta.name ≡ some name
        → meta.namespace ≡ namespace
        → (answer : Result Error (Option (ContentData R.T)) × etcd.World)
        → answer_get etcd R (etcd.get w key) ≡ answer
        → after_current etcd R equal namespace name now answer ≡ (ok r, w')
        → Leaves w' key t r
    unfolding HasMetadata apply_revision
    deleted_found w w' t r meta namespace name key now kv keyed there decodes has_meta named placed
          (err e, w1) read h =
        absurd (cc)
    deleted_found w w' t r meta namespace name key now kv keyed there decodes has_meta named placed
          (ok none, w1) read h =
        absurd (cc)
    deleted_found w w' t r meta namespace name key now kv keyed there decodes has_meta named placed
          (ok (some c), w1) read h =
        let (kv', there', decoded, kept) = answered_found w w1 key c (etcd.get w key) refl read in
        let one : kv ≡ kv' = let both : some kv ≡ some kv' = sym there ∙ there' in cc in
        let content : c.content ≡ t =
          ok_injective
            (sym decoded ∙ ap (λ (x : KeyValue). R.deserialize x.value) (sym one) ∙ decodes) in
        let version = to_string c.revision in
        let current_meta : R.object_meta (apply_revision R c)
            ≡ some (record meta { resource_version = some version }) =
          lens (versioned version) c.content
          ∙ ap (λ x. versioned version (R.object_meta x)) content
          ∙ ap (versioned version) has_meta in
        deleted_current w1 w' t (apply_revision R c) r
          (record meta { resource_version = some version }) namespace name key now kv keyed
          current_meta (rw has_meta refl) (rw has_meta refl) decodes named placed (kept key ∙ there)
          h

    -- A deletion that the API server answers with a resource: if the stored resource has finalizers,
    -- what is stored under its key afterwards decodes to a resource that is marked for deletion, and
    -- the answer is marked; if it has none, nothing is stored under its key any more. For a stored
    -- resource that decodes, under its own name, and an encoding that keeps the mark.
    pub delete_resource-Leaves :
        (w w' : etcd.World) (t r : R.T) (meta : ObjectMeta) (namespace : Option String)
        (name key : String) (now : Time) (kv : KeyValue)
        → create_key R namespace name ≡ ok key
        → lookup w key ≡ some kv
        → R.deserialize kv.value ≡ ok t
        → R.object_meta t ≡ some meta
        → meta.name ≡ some name
        → meta.namespace ≡ namespace
        → delete_resource etcd R equal w namespace name now ≡ (ok r, w')
        → Leaves w' key t r
    unfolding delete_resource get
    delete_resource-Leaves w w' t r meta namespace name key now kv keyed there decodes has_meta
          named placed h =
        deleted_found w w' t r meta namespace name key now kv keyed there decodes has_meta named
          placed (answer_get etcd R (etcd.get w key)) refl (rw (keyed, delete_resource, get) at h)
