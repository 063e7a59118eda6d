-- ===== src/Client/Runner/Retries.antt =====
-- A controller that fails keeps trying, at delays that grow.
use tugboat.Base.{
  ℕ, zero, suc, ◌+◌, ◌≡◌, refl, ◌⊎◌, inl, inr, min, String, false, Option, some, arith,
}
use tugboat.Base.Results.{ok, err}
use tugboat.Manifests.Meta.{meta_name, meta_namespace}
use tugboat.Client.Backoff.{BackoffConfig, delay_for}
use tugboat.Client.Runner.{
  ReconcileEvent, applied, Surroundings, again, u32_max, one_more_attempt, requeue_round,
  requeue_loop, process_requeue, process_reconcile_result, event_resource,
}

module _ (env : Surroundings) where
  -- Nothing is cancelled, and each read of this resource fails or finds one whose reconciliation
  -- fails.
  pub record AlwaysFails (namespace : Option String) (name : String) : Type 0 where
    pub goes_on : (w : env.World) (delay : ℕ) → (env.wait w delay).0 ≡ false
    pub fails :
        (w : env.World)
        → ((reason : String) × (w' : env.World) × (env.get_with_optional_namespace w namespace name
              ≡ (err reason, w')))
          ⊎ ((latest : env.T) × (w' : env.World) × (reason : String) × (w'' : env.World)
              × (env.get_with_optional_namespace w namespace name ≡ (ok (some latest), w'))
              × (env.reconcile w' (applied latest) ≡ (err reason, w'')))

  counted :
      (attempt : ℕ) → one_more_attempt (min attempt u32_max) ≡ min (attempt + suc zero) u32_max
  counted attempt = omega arith

  module _ (backoff : BackoffConfig) (namespace : Option String) (name : String)
      (h : AlwaysFails namespace name) where
    failed_round :
        (w : env.World) (delay attempt : ℕ)
        → (w' : env.World) × (requeue_round env backoff namespace name w delay attempt
            ≡ again w' (delay_for backoff attempt) (one_more_attempt attempt))
    unfolding requeue_round
    failed_round w delay attempt = elim (h.fails (env.wait w delay).1) [
      | inl (reason, w', e) ↦ (w', rw (h.goes_on w delay, e, requeue_round) refl)
      | inr (latest, w', reason, w'', e, f) ↦
          (w'', rw (h.goes_on w delay, e, f, requeue_round) refl)
    ]

    failed_rounds :
        (n : ℕ) (w : env.World) (delay attempt : ℕ)
        → (w' : env.World) × (requeue_loop env backoff
              (suc n)
              namespace
              name
              w
              delay
              (min attempt u32_max)
            ≡ again w'
                (delay_for backoff (min (attempt + n) u32_max))
                (min (attempt + suc n) u32_max))
    unfolding requeue_loop
    failed_rounds zero w delay attempt =
        let (w', e) = failed_round w delay (min attempt u32_max) in
        let same : attempt + zero ≡ attempt = omega arith in
        (w', rw (e, same, counted attempt, requeue_loop) refl)
    failed_rounds (suc n) w delay attempt =
        let (w', e) = failed_round w delay (min attempt u32_max) in
        let (w'', f) = failed_rounds n w' (delay_for backoff (min attempt u32_max)) (attempt + 1) in
        let a : attempt + 1 + n ≡ attempt + suc n = omega arith in
        let b : attempt + 1 + suc n ≡ attempt + suc (suc n) = omega arith in
        (w'', rw (e, requeue_loop) (rw (a, b, ← counted attempt) at f))

    -- A reconciler that keeps failing is run again and again: after any number of failed rounds that
    -- follow the first failure the loop goes on, with the delay that belongs to the number of
    -- failures in a row so far, counted up to what u32 holds.
    pub process_reconcile_result-keeps_trying :
        (n : ℕ) (event : ReconcileEvent env.T) (w : env.World) (reason : String)
        → let meta = env.object_meta (event_resource event) in
          meta_name meta ≡ some name
          → meta_namespace meta ≡ namespace
          → (w' : env.World) × (process_reconcile_result env backoff (suc n) event w (err reason) 0
              ≡ again w' (delay_for backoff (min (suc n) u32_max)) (min (suc (suc n)) u32_max))
    unfolding process_reconcile_result process_requeue
    process_reconcile_result-keeps_trying n event w reason named placed =
        let (w', f) = failed_rounds n w (delay_for backoff 0) 1 in
        let a : 1 + n ≡ suc n = omega arith in
        let b : 1 + suc n ≡ suc (suc n) = omega arith in
        (w', rw (named, placed, process_reconcile_result, process_requeue) (rw (a, b) at f))
