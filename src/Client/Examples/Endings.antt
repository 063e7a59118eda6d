-- ===== src/Client/Examples/Endings.antt =====
-- A reconciler that fails a few times, asks for one more run and is then content.
use tugboat.Base.{ℕ, zero, suc, ◌<◌, ◌≡◌, refl, ◌⊎◌, ap, String, false, none, some, arith}
use tugboat.Base.Results.{Result, ok, err}
use tugboat.Manifests.Meta.{ObjectMeta, default_meta}
use tugboat.Client.Backoff.{default_backoff}
use tugboat.Client.Runner.{
  Action, await_change, requeue, applied, Surroundings, returned, process_reconcile_result,
}
use tugboat.Client.Runner.Ending.{Settles, HasEnded, process_reconcile_result-ends}

abbrev mend : ℕ → Result String Action × ℕ
mend zero = (ok await_change, zero)
mend (suc zero) = (ok (requeue 30000), zero)
mend (suc (suc n)) = (err "no route", suc n)

-- The world is the number of runs that are still to be asked for.
abbrev mending : Surroundings
mending = record {
  World = ℕ;
  T = ObjectMeta;
  object_meta = λ t. some t;
  wait = λ w delay. (false, w);
  get_with_optional_namespace = λ w namespace name. (ok (some default_meta), w);
  reconcile = λ w event. mend w;
}

mend-fails : (w w' : ℕ) (reason : String) → mend w ≡ (err reason, w') → w' < w
mend-fails zero w' reason e = absurd (cc)
mend-fails (suc zero) w' reason e = absurd (cc)
mend-fails (suc (suc n)) w' reason e = let same : suc n ≡ w' = ap (λ x. x.1) e in omega arith

mend-asks :
    (w w' : ℕ) (action : Action) (delay : ℕ)
    → mend w ≡ (ok action, w')
    → action.requeue_after ≡ some delay
    → w' < w
mend-asks zero w' action delay e f = absurd (cc)
mend-asks (suc zero) w' action delay e f = let same : zero ≡ w' = ap (λ x. x.1) e in omega arith
mend-asks (suc (suc n)) w' action delay e f = absurd (cc)

mending-Settles : Settles mending none "demo" (λ w. w)
mending-Settles = record {
  wait_adds_none = λ w delay. omega arith;
  failed_read = λ w w' reason e. absurd (cc);
  found = λ w w' latest e. let same : w ≡ w' = ap (λ x. x.1) e in omega arith;
  failed_reconcile = λ w w' latest reason e. mend-fails w w' reason e;
  asked_again = λ w w' latest action delay e f. mend-asks w w' action delay e f;
}

abbrev demo : ObjectMeta
demo = record default_meta { name = some "demo" }

process_reconcile_result-ends_example :
    (w' : ℕ) × (process_reconcile_result mending default_backoff 4
        (applied demo)
        3
        (err "no route")
        0
      ≡ returned w')
    × (((action : Action) × (Path (Result String Action) (err "no route") (ok action))
          × (action.requeue_after ≡ none)
          × (w' ≡ 3))
        ⊎ HasEnded mending none "demo" w')
process_reconcile_result-ends_example =
    process_reconcile_result-ends mending none "demo" default_backoff (λ w. w) mending-Settles
      (applied demo) 3 (err "no route") 0 refl refl

runs_until_content :
    process_reconcile_result mending default_backoff 4 (applied demo) 3 (err "no route") 0
    ≡ returned 0
unfolding process_reconcile_result
runs_until_content = refl
