-- ===== src/Client/Examples.antt =====
-- The runtime's theorems at small surroundings.
mod Endings
mod Tasks
use tugboat.Base.{
  ℕ, ◌+◌, ◌*◌, ◌^◌, ◌≡◌, refl, sym, ap, inr, min, max, String, Bool, true, false, not, ◌||◌, Option,
  none, some, List, [], ◌∷◌, arith, ◌==◌, eq_iff, eqb, if◌then◌else◌,
}
use tugboat.Base.Lists.{any, is_empty}
use tugboat.Base.Results.{Result, ok, err}
use tugboat.Base.Text.{u64_max}
use tugboat.Base.Int.{pos}
use tugboat.Manifests.Meta.{ObjectMeta, default_meta}
use tugboat.Manifests.Resource.{finalizers, has_finalizers, has_finalizer}
use tugboat.Client.Backoff.{default_backoff, delay_for}
use tugboat.Client.Backoff.Growth.{delay_for-eq}
use tugboat.Client.Runner.{
  Action, await_change, applied, Surroundings, again, u32_max, process_reconcile_result,
}
use tugboat.Client.Runner.Retries.{AlwaysFails, process_reconcile_result-keeps_trying}
use tugboat.Client.Finalizer.{FinalizerEvent, apply, cleanup, ObjectApi, finalizer}
use tugboat.Client.Finalizer.Ownership.{
  KeepsFinalizers, IsHandler, IsProtected, IsGuarded, finalizer-IsGuarded,
}

delay_for-eq_example : delay_for default_backoff 5 ≡ (
    let first = max default_backoff.initial_delay 1 in
    let grown = min (first * max default_backoff.factor 1 ^ 5) (max default_backoff.max_delay 1) in
    min (if eqb 5 0 then first else grown) u64_max)
delay_for-eq_example = delay_for-eq default_backoff 5 (omega arith)

delay_tests :
    (delay_for default_backoff 0 ≡ 1000)
    × (delay_for default_backoff 3 ≡ 8000)
    × (delay_for default_backoff 9 ≡ 128000)
unfolding delay_for
delay_tests = (refl, refl, refl)

-- A resource is its metadata; every read succeeds and every reconciliation fails.
abbrev failing : Surroundings
failing = record {
  World = ℕ;
  T = ObjectMeta;
  object_meta = λ t. some t;
  wait = λ w delay. (false, w + delay);
  get_with_optional_namespace = λ w namespace name. (ok (some default_meta), w);
  reconcile = λ w event. (err "no route", w + 1);
}

failing-AlwaysFails : AlwaysFails failing none "demo"
failing-AlwaysFails = record {
  goes_on = λ w delay. refl;
  fails = λ w. inr (default_meta, w, "no route", w + 1, refl, refl);
}

abbrev demo_meta : ObjectMeta
demo_meta = record default_meta { name = some "demo"; finalizers = "a" ∷ "b" ∷ [] }

process_reconcile_result-keeps_trying_example :
    (w' : ℕ) × (process_reconcile_result failing default_backoff 3
        (applied demo_meta)
        0
        (err "no route")
        0
      ≡ again w' (delay_for default_backoff (min 3 u32_max)) (min 4 u32_max))
process_reconcile_result-keeps_trying_example =
    process_reconcile_result-keeps_trying failing default_backoff none "demo" failing-AlwaysFails 2
      (applied demo_meta) 0 "no route" refl refl

-- A cluster with one resource, and who holds something for it.
record Cluster : Type 0 where
  object : Option (Option ObjectMeta)
  holding : List String

abbrev any_named : String → List String → Bool
any_named g [] = false
any_named g (x ∷ xs) = x == g || any_named g xs

abbrev drop_named : String → List String → List String
drop_named g [] = []
drop_named g (x ∷ xs) = let rest = drop_named g xs in if x == g then rest else x ∷ rest

-- What is left of a resource that is deleted, and of one that is replaced.
abbrev deleted_copy : Option (Option ObjectMeta) → Option (Option ObjectMeta)
deleted_copy none = none
deleted_copy (some t) = if has_finalizers t then some t else none

abbrev replaced_copy : Option (Option ObjectMeta) → Option ObjectMeta → Option (Option ObjectMeta)
replaced_copy none t = none
replaced_copy (some old) t = some t

abbrev cluster_api : ObjectApi
cluster_api = record {
  World = Cluster;
  T = Option ObjectMeta;
  object_meta = λ t. t;
  with_meta = λ meta t. meta;
  replace = λ w name t. (ok t, record w { object = replaced_copy w.object t });
  delete = λ w name. (ok true, record w { object = deleted_copy w.object });
}

abbrev object_of : Cluster → Option (Option ObjectMeta)
object_of w = w.object

abbrev holds : Cluster → String → Bool
holds w g = any_named g w.holding

-- The controller with the finalizer "a".
abbrev handle : Cluster → FinalizerEvent (Option ObjectMeta) → Result String Action × Cluster
handle w (apply t) = (ok await_change, record w { holding = "a" ∷ w.holding })
handle w (cleanup t) = (ok await_change, record w { holding = drop_named "a" w.holding })

replaced_copy-Protected :
    (o : Option (Option ObjectMeta)) (t : Option ObjectMeta) {old : Option ObjectMeta}
    → o ≡ some old
    → replaced_copy o t ≡ some t
replaced_copy-Protected none t h = absurd (cc)
replaced_copy-Protected (some old) t h = refl

nonempty_any : (p : String → Bool) (xs : List String) → any p xs ≡ true → not (is_empty xs) ≡ true
nonempty_any p [] h = absurd (cc)
nonempty_any p (x ∷ xs) h = refl

deleted_copy-Protected :
    (o : Option (Option ObjectMeta)) (t : Option ObjectMeta) (g : String)
    → o ≡ some t
    → has_finalizer t g ≡ true
    → deleted_copy o ≡ some t
deleted_copy-Protected none t g e h = absurd (cc)
deleted_copy-Protected (some other) t g e h =
    let same : t ≡ other = ground arith in
    let has : has_finalizer other g ≡ true = rw (← same) h in
    rw (same, nonempty_any (λ item. item == g) (finalizers other) has) refl

cluster-KeepsFinalizers : KeepsFinalizers cluster_api object_of holds
cluster-KeepsFinalizers = record {
  metadata-set = λ meta t. refl;
  replace-protects = λ w name t g has before. (t, replaced_copy-Protected w.object t before.1, has);
  replace-outside = λ w name t g. refl;
  delete-protects = λ w name g before.
      (before.0, deleted_copy-Protected w.object before.0 g before.1 before.2, before.2);
  delete-outside = λ w name g. refl;
}

any-drop_named :
    (f g : String) (xs : List String) → any_named g (drop_named f xs) ≡ true → any_named g xs ≡ true
any-drop_named f g [] h = h
any-drop_named f g (x ∷ xs) h = ground (arith, any-drop_named f g xs)

dropped : (f : String) (xs : List String) → any_named f (drop_named f xs) ≡ false
dropped f [] = refl
dropped f (x ∷ xs) = ground (arith, dropped f xs)

handle-IsHandler : IsHandler cluster_api object_of handle holds "a"
handle-IsHandler = record {
  handler-protects = λ w event g before.
      elim event as (λ k. IsProtected cluster_api object_of (handle w k).1 g) [
        | apply t ↦ before
        | cleanup t ↦ before
      ];
  apply-outside = λ w t g other. ground (arith, eq_iff "a" g);
  cleanup-outside = λ w t g h. any-drop_named "a" g w.holding h;
  cleanup-done = λ w w' t action h.
      let world : w' ≡ _ = sym (ap (λ x. x.1) h) in rw world (dropped "a" w.holding);
}

abbrev marked_meta : ObjectMeta
marked_meta = record demo_meta {
  deletion_timestamp = some (record { seconds = pos 5; nanos = pos 0 });
}

-- Two controllers hold something for a resource that is marked for deletion.
abbrev held_cluster : Cluster
held_cluster = record { object = some (some marked_meta); holding = "b" ∷ "a" ∷ [] }

held_cluster-IsGuarded : IsGuarded cluster_api object_of handle holds held_cluster
held_cluster-IsGuarded = record {
  holders_named = λ g h. (some marked_meta, refl, ground (arith, eq_iff "a" g, eq_iff "b" g));
}

finalizer-IsGuarded_example :
    IsGuarded cluster_api object_of handle holds
      (finalizer cluster_api handle held_cluster "a" (some marked_meta)).1
finalizer-IsGuarded_example =
    finalizer-IsGuarded cluster_api object_of handle holds "a" cluster-KeepsFinalizers
      handle-IsHandler held_cluster (some marked_meta) refl held_cluster-IsGuarded
