-- ===== src/Store/Atomicity.antt =====
-- What `put_many` promises: all requests are written in one step, under the condition that every
-- expected revision is the current one, or nothing is.
use tugboat.Base.{
  ◌≡◌, ◌≢◌, refl, sym, ◌∙◌, inl, inr, String, Bool, true, false, Option, some, List, [], ◌∷◌, map,
  Memᴰ, arith, eq_iff, ◌==◌, Bool-cases, Option-cases, unwrap_or, is_none_or,
}
use text.Mathlib.TextPositions.{eq_refl}
use tugboat.Base.Lists.{all, any, filter, filter_map, is_empty, all_at, not_all}
use tugboat.Base.Results.{Result, ok, err}
use tugboat.Base.Int.{ℤ, pos, ◌<ℤ◌, eq_ℤ, eq_ℤ_iff, eq_ℤ_refl}
use tugboat.Store.Etcd.{
  KeyValue, get_op, TxnResponse, Etcd, Behaves, written, mod_revision_of, holds, puts_to,
  are_distinct, only_reads,
}
use tugboat.Store.Keys.{Error, etcd_error, optimistic_lock_failed}
use tugboat.Store.Operations.{
  PutRequest, put_txn, revision_compare, to_put, has_expectation, put_many, first_expected_revision,
  answer_put_many,
}

abbrev pub Contents : Type 0
Contents = String → Option KeyValue

abbrev pub is_key_of : String → PutRequest → Bool
is_key_of k request = request.key == k

-- The requests are written with this revision, which is above those their keys had, and nothing
-- else changed.
pub record IsWritten (before after : Contents) (requests : List PutRequest) (rev : ℤ) : Type 0 where
  pub as_expected :
      (request : PutRequest)
      → Memᴰ request requests
      → (z : ℤ) → request.expected_revision ≡ some z
      → mod_revision_of (before request.key) ≡ z
  pub stored :
      (request : PutRequest)
      → Memᴰ request requests
      → (kv : KeyValue) × (after request.key ≡ some kv)
        × (kv.value ≡ request.bytes)
        × (kv.mod_revision ≡ rev)
  pub fresh :
      (request : PutRequest) → Memᴰ request requests → mod_revision_of (before request.key) <ℤ rev
  pub others_kept : (k : String) → any (is_key_of k) requests ≡ false → after k ≡ before k

-- A compare-and-put of several keys in one step, with the answers it may give.
pub data AtomicPut (before after : Contents) (requests : List PutRequest)
    : Result Error ℤ → Type 0 where
  done : (rev : ℤ) → IsWritten before after requests rev → AtomicPut before after requests (ok rev)
  refused :
      (request : PutRequest) (z : ℤ)
      → Memᴰ request requests
      → request.expected_revision ≡ some z
      → mod_revision_of (before request.key) ≢ z
      → ((k : String) → after k ≡ before k)
      → AtomicPut before after requests
          (err (optimistic_lock_failed (first_expected_revision requests)))
  unanswered : (reason : String) → AtomicPut before after requests (err (etcd_error reason))

only_reads-conflict_reads :
    (requests : List PutRequest)
    → only_reads (map (λ (r : PutRequest). get_op r.key) requests) ≡ true
only_reads-conflict_reads [] = refl
only_reads-conflict_reads (r ∷ rs) = only_reads-conflict_reads rs

pub only_reads-put_txn :
    (requests : List PutRequest) → only_reads ((put_txn requests).or_else) ≡ true
only_reads-put_txn requests =
    ground (arith, only_reads-conflict_reads (filter has_expectation requests))

-- The condition that one request puts on the store.
abbrev is_met : Contents → PutRequest → Bool
is_met L request =
    is_none_or request.expected_revision (λ z. eq_ℤ (mod_revision_of (L request.key)) z)

all-compares :
    (L : Contents) (requests : List PutRequest)
    → all (holds L) (filter_map revision_compare requests) ≡ all (is_met L) requests
all-compares L [] = refl
all-compares L (r ∷ rs) = ground (arith, all-compares L rs)

met_revision :
    (L : Contents) (request : PutRequest) (z : ℤ)
    → is_met L request ≡ true
    → request.expected_revision ≡ some z
    → mod_revision_of (L request.key) ≡ z
met_revision L request z h e =
    let same : eq_ℤ (mod_revision_of (L request.key)) z ≡ true = rw e at h in eq_ℤ_iff _ z same

unmet_revision :
    (L : Contents) (request : PutRequest)
    → is_met L request ≡ false
    → (z : ℤ) × (request.expected_revision ≡ some z) × (mod_revision_of (L request.key) ≢ z)
unmet_revision L request h = elim (Option-cases request.expected_revision) [
  | inl e ↦ absurd (ground arith)
  | inr (z, e) ↦
      let apart : eq_ℤ (mod_revision_of (L request.key)) z ≡ false = rw e at h in
      (z, e, λ k. absurd (ground (arith, eq_ℤ_refl z)))
]

any-puts_to :
    (k : String) (requests : List PutRequest)
    → any (puts_to k) (map to_put requests) ≡ any (is_key_of k) requests
any-puts_to k [] = refl
any-puts_to k (r ∷ rs) = ground (arith, any-puts_to k rs)

written_elsewhere :
    (rev : ℤ) (k : String) (old : Option KeyValue) (requests : List PutRequest)
    → any (is_key_of k) requests ≡ false
    → written rev (map to_put requests) k old ≡ old
written_elsewhere rev k old [] h = refl
written_elsewhere rev k old (r ∷ rs) h =
    let rest = written_elsewhere rev k old rs (ground arith) in ground arith

any-is_key_of :
    (requests : List PutRequest) {request : PutRequest}
    → Memᴰ request requests
    → any (is_key_of request.key) requests ≡ true
any-is_key_of [] m = elim m [ ]
any-is_key_of (r ∷ rs) {request} (Memᴰ.head e) = rw e (ground (arith, eq_refl r.key))
any-is_key_of (r ∷ rs) (Memᴰ.tail m) = ground (arith, any-is_key_of rs m)

abbrev Stores : Option KeyValue → PutRequest → ℤ → Type 0
Stores o request rev =
    (kv : KeyValue) × (o ≡ some kv) × (kv.value ≡ request.bytes) × (kv.mod_revision ≡ rev)

written_each :
    (rev : ℤ) (L : Contents) (requests : List PutRequest)
    → are_distinct (map to_put requests) ≡ true
    → (request : PutRequest) → Memᴰ request requests
    → Stores (written rev (map to_put requests) request.key (L request.key)) request rev
written_each rev L [] d request m = elim m [ ]
written_each rev L (r ∷ rs) d request (Memᴰ.head e) = rw (e, eq_refl r.key) (_, refl, refl, refl)
written_each rev L (r ∷ rs) d request (Memᴰ.tail m) =
    let apart : (r.key == request.key) ≡ false =
      ground (arith, eq_iff r.key request.key, any-puts_to r.key rs, any-is_key_of rs m) in
    rw apart (written_each rev L rs (ground arith) request m)

module _ (etcd : Etcd) (lookup : etcd.World → Contents) (laws : Behaves etcd lookup) where
  succeeded-IsWritten :
      (w w' : etcd.World) (requests : List PutRequest) (r : TxnResponse)
      → etcd.txn w (put_txn requests) ≡ (ok r, w')
      → r.succeeded ≡ true
      → is_empty (map to_put requests) ≡ false
      → IsWritten (lookup w) (lookup w') requests (unwrap_or r.revision (pos 0))
  succeeded-IsWritten w w' requests r e s nonempty =
      let (rev, found, now, distinct) = laws.txn-writes e s nonempty in
      let met : all (is_met (lookup w)) requests ≡ true =
        sym (all-compares (lookup w) requests) ∙ sym (laws.txn-compares e) ∙ s in
      rw found (record {
        as_expected = λ request m z h.
            met_revision (lookup w) request z (all_at (is_met (lookup w)) requests m met) h;
        stored = λ request m. rw now (written_each rev (lookup w) requests distinct request m);
        fresh = λ request m. (laws.txn-fresh e s nonempty found request.key).0;
        others_kept = λ k h. now k ∙ written_elsewhere rev k (lookup w k) requests h;
      })

  refused-AtomicPut :
      (w w' : etcd.World) (requests : List PutRequest) (r : TxnResponse)
      → etcd.txn w (put_txn requests) ≡ (ok r, w')
      → r.succeeded ≡ false
      → AtomicPut
          (lookup w)
          (lookup w')
          requests
          (err (optimistic_lock_failed (first_expected_revision requests)))
  refused-AtomicPut w w' requests r e s =
      let unmet : all (is_met (lookup w)) requests ≡ false =
        sym (all-compares (lookup w) requests) ∙ sym (laws.txn-compares e) ∙ s in
      let (request, m, n) = not_all (is_met (lookup w)) requests unmet in
      let (z, h, apart) = unmet_revision (lookup w) request n in
      refused request z m h apart (laws.txn-refuses e s (only_reads-put_txn requests))

  answered :
      (w : etcd.World) (requests : List PutRequest)
      (answer : Result String TxnResponse × etcd.World)
      → etcd.txn w (put_txn requests) ≡ answer
      → is_empty (map to_put requests) ≡ false
      → let out = answer_put_many etcd requests answer in
        AtomicPut (lookup w) (lookup out.1) requests out.0
  answered w requests (err reason, w') e nonempty = unanswered reason
  answered w requests (ok r, w') e nonempty = elim (Bool-cases r.succeeded) [
    | inl s ↦ rw s (done _ (succeeded-IsWritten w w' requests r e s nonempty))
    | inr s ↦ rw s (refused-AtomicPut w w' requests r e s)
  ]

-- `put_many` is an atomic compare-and-put of all its requests: it answers with a revision and each
-- request's expected revision was the current one and its bytes are now stored under a greater one,
-- nothing else having changed; or it answers that the lock failed, some expected revision was not the current one, and
-- nothing changed; or etcd's error is passed on.
pub put_many-AtomicPut :
    (etcd : Etcd) (lookup : etcd.World → Contents)
    → Behaves etcd lookup
    → (w : etcd.World) (requests : List PutRequest)
    → AtomicPut
        (lookup w)
        (lookup (put_many etcd w requests).1)
        requests
        (put_many etcd w requests).0
unfolding put_many
put_many-AtomicPut etcd lookup laws w [] = done (pos 0) (record {
  as_expected = λ r m. elim m [ ];
  stored = λ r m. elim m [ ];
  fresh = λ r m. elim m [ ];
  others_kept = λ k h. refl;
})
put_many-AtomicPut etcd lookup laws w (request ∷ more) =
    answered etcd lookup laws w (request ∷ more) (etcd.txn w (put_txn (request ∷ more))) refl refl
