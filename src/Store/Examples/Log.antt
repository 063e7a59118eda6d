-- ===== src/Store/Examples/Log.antt =====
-- A key-value store that keeps the log of its transactions, newest first, and meets `Behaves`. The
-- revision is the length of the log, so it starts at 0 and each transaction that is logged raises it.
use tugboat.Base.{
  ℕ, suc, ◌≡◌, refl, sym, ◌∙◌, ap, ◌⊎◌, inl, inr, String, true, false, not, Option, none, some,
  List, [], ◌∷◌, ◌++◌, map, arith, ◌==◌, is_some, Bool-cases, if◌then◌else◌,
}
use tugboat.Base.Lists.{length, all, any, filter, filter_map}
use tugboat.Base.Results.{Result, ok, err, ok_injective}
use tugboat.Base.Int.{ℤ, pos, ◌<ℤ◌, ◌≤ℤ◌}
use tugboat.Base.Text.{strip_prefix}
use tugboat.Store.Etcd.{
  KeyValue, Bytes, TxnOp, put_op, get_op, delete_op, TxnOpResponse, put_done, get_done, delete_done,
  Txn, TxnResponse, Etcd, Behaves, written, created_at, mod_revision_of, holds, to_list,
  are_distinct, only_reads,
}

abbrev pub Log : Type 0
Log = List (List TxnOp)

-- The revision that a transaction on top of this log gets.
abbrev next : Log → ℤ
next log = pos (suc (length log))

unfoldable pub lookup : Log → String → Option KeyValue
lookup [] k = none
lookup (ops ∷ log) k = written (next log) ops k (lookup log k)

unfoldable pub answer_op : Log → TxnOp → TxnOpResponse
unfolding lookup
answer_op log (put_op k bytes) = put_done
answer_op log (get_op k) = get_done (to_list (lookup log k))
answer_op log (delete_op k) = delete_done (if is_some (lookup log k) then pos 1 else pos 0)

unfoldable pub append : Log → List TxnOp → Log
append log ops = if only_reads ops then log else ops ∷ log

unfoldable pub txn : Log → Txn → Result String TxnResponse × Log
unfolding lookup answer_op append
txn log t =
    if not (are_distinct t.and_then)
    then (err "etcdserver: duplicate key given in txn request", log)
    else if all (holds (lookup log)) t.when
    then (
      ok (record {
        succeeded = true;
        revision = some (next log);
        op_responses = map (answer_op log) t.and_then;
      }),
      t.and_then ∷ log,
    )
    else (
      ok (record {
        succeeded = false;
        revision = some (pos (length log));
        op_responses = map (answer_op log) t.or_else;
      }),
      append log t.or_else,
    )

unfoldable pub keys_put : List TxnOp → List String
keys_put [] = []
keys_put (put_op k bytes ∷ ops) = k ∷ keys_put ops
keys_put (get_op k ∷ ops) = keys_put ops
keys_put (delete_op k ∷ ops) = keys_put ops

unfoldable pub keys_of : Log → List String
unfolding keys_put
keys_of [] = []
keys_of (ops ∷ log) =
    let older = keys_of log in
    keys_put ops ++ filter (λ k. not (any (λ j. j == k) (keys_put ops))) older

unfoldable pub log_etcd : Etcd
unfolding lookup keys_of txn
log_etcd = record {
  World = Log;
  txn = txn;
  get = λ log k. (ok (to_list (lookup log k)), log);
  get_prefix = λ log prefix limit.
      let under = filter (λ k. is_some (strip_prefix k prefix)) (keys_of log) in
      (
        ok (record { revision = some (pos (length log)); kvs = filter_map (lookup log) under }),
        log,
      );
  delete = λ log k. (
    ok (if is_some (lookup log k) then pos 1 else pos 0, to_list (lookup log k)),
    (delete_op k ∷ []) ∷ log,
  );
}

written_reads :
    (rev : ℤ) (ops : List TxnOp) (k : String) (old : Option KeyValue)
    → only_reads ops ≡ true
    → written rev ops k old ≡ old
written_reads rev [] k old h = refl
written_reads rev (get_op j ∷ ops) k old h = written_reads rev ops k old h
written_reads rev (put_op j bytes ∷ ops) k old h = absurd (cc)
written_reads rev (delete_op j ∷ ops) k old h = absurd (cc)

-- The revisions of an entry lie between 1 and a bound.
abbrev IsDated : ℕ → Option KeyValue → Type 0
IsDated n none = Unit
IsDated n (some kv) =
    (pos 0 <ℤ kv.create_revision) × (pos 0 <ℤ kv.mod_revision) × (kv.mod_revision ≤ℤ pos n)

IsDated-suc : (n : ℕ) (o : Option KeyValue) → IsDated n o → IsDated (suc n) o
IsDated-suc n none h = tt
IsDated-suc n (some kv) (a, b, c) = (a, b, omega arith)

put-IsDated :
    (n : ℕ) (bytes : Bytes) (old : Option KeyValue)
    → IsDated n old
    → let rev = pos (suc n) in
      IsDated
        (suc n)
        (some (record { value = bytes; create_revision = created_at rev old; mod_revision = rev }))
put-IsDated n bytes none h = (omega arith, omega arith, omega arith)
put-IsDated n bytes (some kv) (a, b, c) = (a, omega arith, omega arith)

written-IsDated :
    (n : ℕ) (ops : List TxnOp) (k : String) (old : Option KeyValue)
    → IsDated n old
    → IsDated (suc n) (written (pos (suc n)) ops k old)
written-IsDated n [] k old h = IsDated-suc n old h
written-IsDated n (put_op j bytes ∷ ops) k old h = elim (Bool-cases (j == k)) [
  | inl e ↦ rw e (put-IsDated n bytes old h)
  | inr e ↦ rw e (written-IsDated n ops k old h)
]
written-IsDated n (get_op j ∷ ops) k old h = written-IsDated n ops k old h
written-IsDated n (delete_op j ∷ ops) k old h = elim (Bool-cases (j == k)) [
  | inl e ↦ rw e tt
  | inr e ↦ rw e (written-IsDated n ops k old h)
]

lookup-IsDated : (log : Log) (k : String) → IsDated (length log) (lookup log k)
unfolding lookup
lookup-IsDated [] k = tt
lookup-IsDated (ops ∷ log) k =
    written-IsDated (length log) ops k (lookup log k) (lookup-IsDated log k)

dated_below : (n : ℕ) (o : Option KeyValue) → IsDated n o → mod_revision_of o <ℤ pos (suc n)
dated_below n none h = omega arith
dated_below n (some kv) (a, b, c) = omega arith

lookup-append :
    (log : Log) (ops : List TxnOp)
    → only_reads ops ≡ true
    → (k : String) → lookup (append log ops) k ≡ lookup log k
unfolding append
lookup-append log ops h k = rw h refl

-- What a transaction's answer says of it.
Answered : Log → Txn → TxnResponse → Log → Type 0
Answered log t r log' =
    (are_distinct t.and_then ≡ true)
    × ((all (holds (lookup log)) t.when ≡ true)
          × (r.succeeded ≡ true)
          × (r.revision ≡ some (next log))
          × (r.op_responses ≡ map (answer_op log) t.and_then)
          × (log' ≡ t.and_then ∷ log)
        ⊎ (all (holds (lookup log)) t.when ≡ false)
          × (r.succeeded ≡ false)
          × (log' ≡ append log t.or_else))

txn-Answered :
    (log log' : Log) (t : Txn) (r : TxnResponse) → txn log t ≡ (ok r, log') → Answered log t r log'
unfolding txn Answered
txn-Answered log log' t r h = elim (Bool-cases (are_distinct t.and_then)) [
  | inr d ↦
      let opened = rw (d, txn) at h in
      let failed : Path (Result String TxnResponse) (err _) (ok r) = ap (λ x. x.0) opened in
      absurd (cc)
  | inl d ↦ elim (Bool-cases (all (holds (lookup log)) t.when)) [
    | inl c ↦
        let opened = rw (d, c, txn) at h in
        let whole = ok_injective (ap (λ x. x.0) opened) in
        (
          d,
          inl (
            c,
            sym (ap (λ x. x.succeeded) whole),
            sym (ap (λ x. x.revision) whole),
            sym (ap (λ x. x.op_responses) whole),
            sym (ap (λ x. x.1) opened),
          ),
        )
    | inr c ↦
        let opened = rw (d, c, txn) at h in
        let whole = ok_injective (ap (λ x. x.0) opened) in
        (d, inr (c, sym (ap (λ x. x.succeeded) whole), sym (ap (λ x. x.1) opened)))
  ]
]

module _ (log log' : Log) (t : Txn) (r : TxnResponse) (h : txn log t ≡ (ok r, log')) where
  compares : r.succeeded ≡ all (holds (lookup log)) t.when
  unfolding Answered
  compares =
      let (d, answer) = txn-Answered log log' t r h in
      elim answer [ inl (c, s, _, _, _) ↦ s ∙ sym c | inr (c, s, _) ↦ s ∙ sym c ]

  writes :
      r.succeeded ≡ true
      → (r.revision ≡ some (next log))
        × (r.op_responses ≡ map (answer_op log) t.and_then)
        × (log' ≡ t.and_then ∷ log)
        × (are_distinct t.and_then ≡ true)
  unfolding Answered
  writes s =
      let (d, answer) = txn-Answered log log' t r h in
      elim answer [
        | inl (c, _, rev, ops, now) ↦ (rev, ops, now, d)
        | inr (c, f, _) ↦ absurd (let both : true ≡ false = sym s ∙ f in cc)
      ]

  refuses :
      r.succeeded ≡ false
      → only_reads t.or_else ≡ true
      → (k : String) → lookup log' k ≡ lookup log k
  unfolding Answered
  refuses s o k =
      let (d, answer) = txn-Answered log log' t r h in
      elim answer [
        | inl (c, f, _, _, _) ↦ absurd (let both : true ≡ false = sym f ∙ s in cc)
        | inr (c, _, now) ↦ rw now (lookup-append log t.or_else o k)
      ]

dated_positive :
    (n : ℕ) (o : Option KeyValue) (kv : KeyValue)
    → IsDated n o
    → o ≡ some kv
    → (pos 0 <ℤ kv.create_revision) × (pos 0 <ℤ kv.mod_revision)
dated_positive n none kv h e = absurd (cc)
dated_positive n (some other) kv (a, b, c) e =
    let same : other ≡ kv = ground arith in rw (← same) (a, b)

unfoldable pub log_view : log_etcd.World → String → Option KeyValue
unfolding log_etcd lookup
log_view = lookup

pub log_etcd-Behaves : Behaves log_etcd log_view
unfolding log_etcd log_view answer_op lookup
log_etcd-Behaves = record {
  txn-compares = λ {w} {w'} {t} {r} h. compares w w' t r h;
  txn-writes = λ {w} {w'} {t} {r} h s nonempty.
      let (rev, _, now, d) = writes w w' t r h s in (next w, rev, λ k. ap (λ l. lookup l k) now, d);
  txn-fresh = λ {w} {w'} {t} {r} {rev} h s nonempty found k.
      let (at_, _, _, _) = writes w w' t r h s in
      let same : next w ≡ rev = cc in
      rw (← same) (dated_below (length w) (lookup w k) (lookup-IsDated w k), omega arith);
  txn-refuses = λ {w} {w'} {t} {r} h s o k. refuses w w' t r h s o k;
  put-answers = λ {w} {w'} {t} {r} {k} {bytes} h s one.
      let (_, ops, _, _) = writes w w' t r h s in ops ∙ rw one refl;
  create-positive = λ w k kv e. dated_positive (length w) (lookup w k) kv (lookup-IsDated w k) e;
  get-finds = λ {w} {w'} {k} {kvs} h.
      (sym (ok_injective (ap (λ x. x.0) h)), λ j. ap (λ l. lookup l j) (sym (ap (λ x. x.1) h)));
  delete-removes = λ {w} {w'} {k} {n} {kvs} h. (
    sym (ap (λ x. x.1) (ok_injective (ap (λ x. x.0) h))),
    λ j. ap (λ l. lookup l j) (sym (ap (λ x. x.1) h)),
  );
}
