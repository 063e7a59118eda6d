-- ===== src/Store/Locking.antt =====
-- Optimistic locking: what `put` does with a revision that is no longer the current one, and
-- `put_if_not_exists` with a key that is there.
use tugboat.Base.{
  ◌≡◌, ◌≢◌, refl, sym, ◌∙◌, ap, ◌⊎◌, inl, inr, String, Bool, true, false, ◌&&◌, Option, none, some,
  [], ◌∷◌, Memᴰ, arith, eq_iff, Bool-cases, Option-cases,
}
use text.Mathlib.TextPositions.{eq_refl}
use tugboat.Base.Results.{Result, ok, err, ◌>>=◌, >>=-eq-ok}
use tugboat.Base.Int.{ℤ, pos, ◌≤ℤ◌, ◌<ℤ◌, eq_ℤ, eq_ℤ_iff}
use tugboat.Store.Etcd.{
  KeyValue, Bytes, TxnResponse, Etcd, Behaves, mod_revision_of, create_revision_of,
}
use tugboat.Store.Keys.{Error, etcd_error, optimistic_lock_failed, ResourceType}
use tugboat.Store.Operations.{
  PutRequest, ContentData, put_many, put, prepare_put_inner, put_if_not_exists, key_and_bytes,
  answer_create, create_txn, starts_with_put,
}
use tugboat.Store.Atomicity.{
  Contents, AtomicPut, done, refused, unanswered, IsWritten, put_many-AtomicPut,
}

-- The lock fails with the expected revision and nothing changes, or etcd's error is passed on.
abbrev pub IsLockFailure {ℓ} : {A : Type ℓ} → Contents → Contents → ℤ → Result Error A → Type ℓ
IsLockFailure before after z answer =
    (answer ≡ err (optimistic_lock_failed z)) × ((k : String) → after k ≡ before k)
    ⊎ ((reason : String) × (answer ≡ err (etcd_error reason)))

stale-AtomicPut :
    (before after : Contents) (request : PutRequest) (z : ℤ) {answer : Result Error ℤ}
    → AtomicPut before after (request ∷ []) answer
    → request.expected_revision ≡ some z
    → mod_revision_of (before request.key) ≢ z
    → IsLockFailure before after z answer
stale-AtomicPut before after request z (done rev h) e n =
    absurd (n (h.as_expected request (Memᴰ.head refl) z e))
stale-AtomicPut before after request z (refused other y m h apart kept) e n = inl (rw e refl, kept)
stale-AtomicPut before after request z (unanswered reason) e n = inr (reason, refl)

current-AtomicPut :
    (before after : Contents) (request : PutRequest) (z : ℤ) {answer : Result Error ℤ}
    → AtomicPut before after (request ∷ []) answer
    → request.expected_revision ≡ some z
    → mod_revision_of (before request.key) ≡ z
    → ((rev : ℤ) × (answer ≡ ok rev)) ⊎ ((reason : String) × (answer ≡ err (etcd_error reason)))
current-AtomicPut before after request z (done rev h) e n = inl (rev, refl)
current-AtomicPut before after request z (refused other y (Memᴰ.head k) h apart kept) e n =
    let same : z ≡ y = ground arith in
    absurd (apart (ap (λ (r : PutRequest). mod_revision_of (before r.key)) k ∙ n ∙ same))
current-AtomicPut before after request z (refused other y (Memᴰ.tail m) h apart kept) e n =
    elim m [ ]
current-AtomicPut before after request z (unanswered reason) e n = inr (reason, refl)

IsWritten-AtomicPut :
    (before after : Contents) (request : PutRequest) (rev : ℤ) {answer : Result Error ℤ}
    → AtomicPut before after (request ∷ []) answer
    → answer ≡ ok rev
    → IsWritten before after (request ∷ []) rev
IsWritten-AtomicPut before after request rev (done r k) e = let same : r ≡ rev = cc in rw (← same) k
IsWritten-AtomicPut before after request rev (refused other y m h apart kept) e = absurd (cc)
IsWritten-AtomicPut before after request rev (unanswered reason) e = absurd (cc)

module _ (etcd : Etcd) (lookup : etcd.World → Contents) (laws : Behaves etcd lookup) where
  module _ (R : ResourceType) where
    lift_failure :
        (before after : Contents) (z : ℤ) (answer : Result Error ℤ) (value : R.T)
        → IsLockFailure before after z answer
        → IsLockFailure {A = ContentData R.T} before after z
            (do revision ← answer; ok (record { content = value; revision = revision }))
    lift_failure before after z answer value (inl (e, kept)) = inl (rw e refl, kept)
    lift_failure before after z answer value (inr (reason, e)) = inr (reason, rw e refl)

    -- A put whose expected revision is not the current one of its key writes nothing: unless etcd's
    -- own error is passed on, it answers that the lock on that revision failed.
    pub put-stale :
        (w : etcd.World) (value : R.T) (request : PutRequest) (z : ℤ)
        → prepare_put_inner etcd R value ≡ ok request
        → request.expected_revision ≡ some z
        → mod_revision_of (lookup w request.key) ≢ z
        → let out = put etcd R w value in IsLockFailure (lookup w) (lookup out.1) z out.0
    unfolding put
    put-stale w value request z p e n =
        let atomic = put_many-AtomicPut etcd lookup laws w (request ∷ []) in
        rw (p, put) (lift_failure _ _ z _ value (stale-AtomicPut _ _ request z atomic e n))

    -- A put that expects the current revision of its key succeeds, or etcd's error is passed on.
    pub put-current :
        (w : etcd.World) (value : R.T) (request : PutRequest) (z : ℤ)
        → prepare_put_inner etcd R value ≡ ok request
        → request.expected_revision ≡ some z
        → mod_revision_of (lookup w request.key) ≡ z
        → ((sent : ContentData R.T) × ((put etcd R w value).0 ≡ ok sent))
          ⊎ ((reason : String) × ((put etcd R w value).0 ≡ err (etcd_error reason)))
    unfolding put
    put-current w value request z p e n =
        let atomic = put_many-AtomicPut etcd lookup laws w (request ∷ []) in
        elim (current-AtomicPut _ _ request z atomic e n) [
          | inl (rev, sent) ↦
              inl (record { content = value; revision = rev }, rw (p, put) (rw sent refl))
          | inr (reason, sent) ↦ inr (reason, rw (p, put) (rw sent refl))
        ]

    -- A put that succeeded: the request's bytes are stored under the revision that it answers with,
    -- which is above the one that the key had.
    pub put-stores :
        (w w' : etcd.World) (value : R.T) (request : PutRequest) (c : ContentData R.T)
        → prepare_put_inner etcd R value ≡ ok request
        → put etcd R w value ≡ (ok c, w')
        → (c.content ≡ value) × IsWritten (lookup w) (lookup w') (request ∷ []) c.revision
    unfolding put
    put-stores w w' value request c p e =
        let opened = rw (p, put) at e in
        let world : (put_many etcd w (request ∷ [])).1 ≡ w' = ap (λ x. x.1) opened in
        let (revision, sent, made) =
          >>=-eq-ok (put_many etcd w (request ∷ [])).0 _ (ap (λ x. x.0) opened) in
        let whole : Path (ContentData R.T) (record { content = value; revision = revision }) c =
          cc in
        let here : revision ≡ c.revision = ap (λ x. x.revision) whole in
        let atomic = put_many-AtomicPut etcd lookup laws w (request ∷ []) in
        (
          sym (ap (λ x. x.content) whole),
          rw (← here, ← world) (IsWritten-AtomicPut _ _ request revision atomic sent),
        )

    -- Of two writers that read the same revision of a key at most one writes: once the first put has
    -- succeeded, and as long as the key's revision has not gone back below the one it was given, the
    -- second changes nothing and answers that the lock failed, unless etcd's own error is passed on.
    pub put-loses_no_update :
        (w w1 w2 : etcd.World) (value1 value2 : R.T) (request1 request2 : PutRequest) (z : ℤ)
        (c : ContentData R.T)
        → prepare_put_inner etcd R value1 ≡ ok request1
        → prepare_put_inner etcd R value2 ≡ ok request2
        → request1.key ≡ request2.key
        → request1.expected_revision ≡ some z
        → request2.expected_revision ≡ some z
        → put etcd R w value1 ≡ (ok c, w1)
        → c.revision ≤ℤ mod_revision_of (lookup w2 request2.key)
        → let out = put etcd R w2 value2 in IsLockFailure (lookup w2) (lookup out.1) z out.0
    put-loses_no_update w w1 w2 value1 value2 request1 request2 z c p1 p2 same e1 e2 first later =
        let (_, h) = put-stores w w1 value1 request1 c p1 first in
        let read : mod_revision_of (lookup w request1.key) ≡ z =
          h.as_expected request1 (Memᴰ.head refl) z e1 in
        let above : z <ℤ c.revision = rw read at (h.fresh request1 (Memᴰ.head refl)) in
        put-stale w2 value2 request2 z p2 e2
          (λ k. let back : c.revision ≤ℤ z = rw k at later in absurd (omega arith))

-- What the answers of `put_if_not_exists` mean: the resource was stored under a key that was free,
-- or the key was taken and nothing changed, or etcd's error is passed on.
pub data Creation {ℓ} {A : Type ℓ} (before after : Contents) (key : String) (bytes : Bytes)
    (value : A) : Result Error (Option (ContentData A)) → Type ℓ where
  created :
      (c : ContentData A)
      → c.content ≡ value
      → before key ≡ none
      → after key
        ≡ some (record { value = bytes; create_revision = c.revision; mod_revision = c.revision })
      → ((k : String) → k ≢ key → after k ≡ before k)
      → Creation before after key bytes value (ok (some c))
  taken :
      (kv : KeyValue)
      → before key ≡ some kv
      → ((k : String) → after k ≡ before k)
      → Creation before after key bytes value (ok none)
  unanswered_creation :
      (reason : String) → Creation before after key bytes value (err (etcd_error reason))

true_and : (a : Bool) → (a && true) ≡ true → a ≡ true
true_and a h = ground arith

false_and : (a : Bool) → (a && true) ≡ false → a ≡ false
false_and a h = ground arith

and_false : (a : Bool) → (a && false) ≡ false
and_false a = ground arith

module _ (etcd : Etcd) (lookup : etcd.World → Contents) (laws : Behaves etcd lookup) where
  module _ (R : ResourceType) where
    absent_key :
        (w : etcd.World) (key : String)
        → create_revision_of (lookup w key) ≡ pos 0
        → lookup w key ≡ none
    absent_key w key e = elim (Option-cases (lookup w key)) [
      | inl n ↦ n
      | inr (kv, s) ↦
          let (positive, _) = laws.create-positive w key kv s in
          let zero : kv.create_revision ≡ pos 0 = rw s at e in absurd (ground arith)
    ]

    present_key :
        (w : etcd.World) (key : String)
        → eq_ℤ (create_revision_of (lookup w key)) (pos 0) ≡ false
        → (kv : KeyValue) × (lookup w key ≡ some kv)
    present_key w key h = elim (Option-cases (lookup w key)) [
      | inl n ↦ absurd (let zero : eq_ℤ (pos 0) (pos 0) ≡ false = rw n at h in cc)
      | inr there ↦ there
    ]

    answered_Creation :
        (w : etcd.World) (key : String) (bytes : Bytes) (value : R.T)
        (answer : Result String TxnResponse × etcd.World)
        → etcd.txn w (create_txn key bytes) ≡ answer
        → let out = answer_create etcd R value answer in
          Creation (lookup w) (lookup out.1) key bytes value out.0
    answered_Creation w key bytes value (err reason, w') e = unanswered_creation reason
    answered_Creation w key bytes value (ok r, w') e = elim (Bool-cases r.succeeded) [
      | inl s ↦
          let (rev, found, now, _) = laws.txn-writes e s refl in
          let free : lookup w key ≡ none =
            absent_key w key (eq_ℤ_iff _ _ (true_and _ (sym (laws.txn-compares e) ∙ s))) in
          rw (laws.put-answers e s refl, s, found)
            (created _ refl free (now key ∙ rw (eq_refl key, free) refl)
              (λ k n. now k ∙ ground (arith, eq_iff key k)))
      | inr s ↦
          let (kv, there) = present_key w key (false_and _ (sym (laws.txn-compares e) ∙ s)) in
          rw (s, and_false (starts_with_put r.op_responses))
            (taken kv there (laws.txn-refuses e s refl))
    ]

    -- `put_if_not_exists` never overwrites: it stores the resource under a key that was free, or it
    -- answers that there is one already and changes nothing, or it passes etcd's error on.
    pub put_if_not_exists-Creation :
        (w : etcd.World) (value : R.T) (key : String) (bytes : Bytes)
        → key_and_bytes etcd R value ≡ ok (key, bytes)
        → let out = put_if_not_exists etcd R w value in
          Creation (lookup w) (lookup out.1) key bytes value out.0
    unfolding put_if_not_exists
    put_if_not_exists-Creation w value key bytes e =
        rw (e, put_if_not_exists) (answered_Creation w key bytes value _ refl)
