-- ===== src/Store/RoundTrip.antt =====
-- Reading what was written, and writing back what was read.
use tugboat.Base.{◌≡◌, refl, ◌∙◌, ap, ◌⊎◌, inl, inr, String, some, List, [], ◌∷◌, Memᴰ}
use tugboat.Base.Results.{Result, ok, err, >>=-eq-ok}
use tugboat.Manifests.Meta.{ObjectMeta}
use tugboat.Store.Etcd.{KeyValue, Etcd, Behaves, to_list}
use tugboat.Store.Keys.{etcd_error, ResourceType, create_key}
use tugboat.Store.Operations.{
  PutRequest, ContentData, put, get, prepare_put_inner, parse_expected, answer_get,
}
use tugboat.Store.Atomicity.{Contents}
use tugboat.Store.Locking.{put-stores}

module _ (etcd : Etcd) (lookup : etcd.World → Contents) (laws : Behaves etcd lookup) where
  module _ (R : ResourceType) where
    -- What a request that was prepared says of the resource.
    pub prepared :
        (value : R.T) (request : PutRequest) (meta : ObjectMeta) (name : String)
        → prepare_put_inner etcd R value ≡ ok request
        → R.object_meta value ≡ some meta
        → meta.name ≡ some name
        → (parse_expected meta.resource_version ≡ ok request.expected_revision)
          × (create_key R meta.namespace name ≡ ok request.key)
          × (R.serialize value ≡ ok request.bytes)
    unfolding prepare_put_inner
    prepared value request meta name p has_meta has_name =
        let opened = rw (has_meta, has_name) at p in
        let (expected, e1, p1) = >>=-eq-ok (parse_expected meta.resource_version) _ opened in
        let (key, e2, p2) = >>=-eq-ok (create_key R meta.namespace name) _ p1 in
        let (bytes, e3, p3) = >>=-eq-ok (R.serialize value) _ p2 in
        let whole : Path PutRequest
            (record { key = key; bytes = bytes; expected_revision = expected }) request =
          cc in
        (
          e1 ∙ ap (λ x. ok x.expected_revision) whole,
          e2 ∙ ap (λ x. ok x.key) whole,
          e3 ∙ ap (λ x. ok x.bytes) whole,
        )

    answered_get :
        (w : etcd.World) (key : String) (kv : KeyValue) (value : R.T)
        → lookup w key ≡ some kv
        → R.deserialize kv.value ≡ ok value
        → (answer : Result String (List KeyValue) × etcd.World) → etcd.get w key ≡ answer
        → ((answer_get etcd R answer).0
            ≡ ok (some (record { content = value; revision = kv.mod_revision })))
          ⊎ ((reason : String) × ((answer_get etcd R answer).0 ≡ err (etcd_error reason)))
    answered_get w key kv value there decodes (err reason, w') e = inr (reason, refl)
    answered_get w key kv value there decodes (ok kvs, w') e =
        let (found, _) = laws.get-finds e in
        let one : kvs ≡ kv ∷ [] = found ∙ ap to_list there in inl (rw (one, decodes) refl)

    -- A resource that was put is what a get of its namespace and name then finds, with the revision
    -- that the put answered, unless etcd's own error is passed on; for an encoding that decodes.
    pub get-put :
        (w w' : etcd.World) (value : R.T) (request : PutRequest) (meta : ObjectMeta) (name : String)
        (c : ContentData R.T)
        → R.object_meta value ≡ some meta
        → meta.name ≡ some name
        → prepare_put_inner etcd R value ≡ ok request
        → R.deserialize request.bytes ≡ ok value
        → put etcd R w value ≡ (ok c, w')
        → ((get etcd R w' meta.namespace name).0
            ≡ ok (some (record { content = value; revision = c.revision })))
          ⊎ ((reason : String) × ((get etcd R w' meta.namespace name).0 ≡ err (etcd_error reason)))
    unfolding get
    get-put w w' value request meta name c has_meta has_name p decodes sent =
        let (_, keyed, _) = prepared value request meta name p has_meta has_name in
        let (_, h) = put-stores etcd lookup laws R w w' value request c p sent in
        let (kv, there, bytes, rev) = h.stored request (Memᴰ.head refl) in
        rw (keyed, get)
          (rw (← rev) (answered_get w' request.key kv value there (rw bytes decodes) _ refl))
