-- ===== src/Client/Runner/Ending.antt =====
-- When the loop that reconciles a resource again comes to its end, and why.
use tugboat.Base.{
  ℕ, zero, suc, ◌<◌, ◌≤◌, ◌≡◌, refl, ◌⊎◌, inl, inr, String, true, Option, none, some, arith,
  Bool-cases, Option-cases,
}
use tugboat.Base.Results.{Result, ok, err}
use tugboat.Manifests.Meta.{meta_name, meta_namespace}
use tugboat.Client.Backoff.{BackoffConfig, delay_for}
use tugboat.Client.Runner.{
  Action, ReconcileEvent, applied, Surroundings, Progress, returned, again, one_more_attempt,
  after_reconcile, after_get, requeue_round, requeue_loop, process_requeue, process_action,
  process_reconcile_result, event_resource,
}

module _ (env : Surroundings) (namespace : Option String) (name : String) where
  -- Troubles come to an end: `trouble` bounds what is still to come, waiting and reading add
  -- nothing to it, and each failed read, each failed reconciliation and each one that asks for
  -- another takes from it.
  pub record Settles (trouble : env.World → ℕ) : Type 0 where
    pub wait_adds_none : (w : env.World) (delay : ℕ) → trouble (env.wait w delay).1 ≤ trouble w
    pub failed_read :
        (w w' : env.World) (reason : String)
        → env.get_with_optional_namespace w namespace name ≡ (err reason, w')
        → trouble w' < trouble w
    pub found :
        (w w' : env.World) (latest : env.T)
        → env.get_with_optional_namespace w namespace name ≡ (ok (some latest), w')
        → trouble w' ≤ trouble w
    pub failed_reconcile :
        (w w' : env.World) (latest : env.T) (reason : String)
        → env.reconcile w (applied latest) ≡ (err reason, w')
        → trouble w' < trouble w
    pub asked_again :
        (w w' : env.World) (latest : env.T) (action : Action) (delay : ℕ)
        → env.reconcile w (applied latest) ≡ (ok action, w')
        → action.requeue_after ≡ some delay
        → trouble w' < trouble w

  -- Why the loop left the world like this: its token was cancelled, the resource was gone, or a
  -- reconciliation succeeded that asks for no other.
  pub data HasEnded (w' : env.World) : Type 0 where
    cancelled :
        (w : env.World) (delay : ℕ)
        → (env.wait w delay).0 ≡ true
        → (env.wait w delay).1 ≡ w'
        → HasEnded w'
    gone :
        (w : env.World)
        → env.get_with_optional_namespace w namespace name ≡ (ok none, w')
        → HasEnded w'
    settled :
        (w : env.World) (latest : env.T) (action : Action)
        → env.reconcile w (applied latest) ≡ (ok action, w')
        → action.requeue_after ≡ none
        → HasEnded w'

  abbrev Returns : Progress env.World → Type 0
  Returns p = (w' : env.World) × (p ≡ returned w') × HasEnded w'

  module _ (backoff : BackoffConfig) (trouble : env.World → ℕ) (h : Settles trouble) where
    -- A round ends the loop, or it leaves less trouble than there was.
    abbrev Advances : ℕ → Progress env.World → Type 0
    Advances n p =
        Returns p
        ⊎ ((w' : env.World) × (delay : ℕ) × (attempt : ℕ) × (p ≡ again w' delay attempt)
            × (trouble w' < n))

    after_reconcile-Advances :
        (w : env.World) (latest : env.T) (attempt : ℕ) (r : Result String Action × env.World)
        → env.reconcile w (applied latest) ≡ r
        → Advances (trouble w) (after_reconcile env backoff attempt r)
    after_reconcile-Advances w latest attempt (err e, w') q = inr (
      w',
      delay_for backoff attempt,
      one_more_attempt attempt,
      refl,
      h.failed_reconcile w w' latest e q,
    )
    after_reconcile-Advances w latest attempt (ok action, w') q =
        elim (Option-cases action.requeue_after) [
          | inl e ↦ inl (w', rw e refl, settled w latest action q e)
          | inr (delay, e) ↦
              inr (w', delay, 0, rw e refl, h.asked_again w w' latest action delay q e)
        ]

    after_get-Advances :
        (w : env.World) (attempt : ℕ) (r : Result String (Option env.T) × env.World)
        → env.get_with_optional_namespace w namespace name ≡ r
        → Advances (trouble w) (after_get env backoff attempt r)
    after_get-Advances w attempt (err e, w') q =
        inr (w', delay_for backoff attempt, one_more_attempt attempt, refl, h.failed_read w w' e q)
    after_get-Advances w attempt (ok none, w') q = inl (w', refl, gone w q)
    after_get-Advances w attempt (ok (some latest), w') q =
        let less = h.found w w' latest q in
        elim (after_reconcile-Advances w' latest attempt (env.reconcile w' (applied latest)) refl) [
          | inl done ↦ inl done
          | inr (w'', delay, next, e, below) ↦ inr (w'', delay, next, e, omega arith)
        ]

    requeue_round-Advances :
        (w : env.World) (delay attempt : ℕ)
        → Advances (trouble w) (requeue_round env backoff namespace name w delay attempt)
    unfolding requeue_round
    requeue_round-Advances w delay attempt =
        let w' = (env.wait w delay).1 in
        let less = h.wait_adds_none w delay in
        elim (Bool-cases (env.wait w delay).0) [
          | inl e ↦ inl (w', rw (e, requeue_round) refl, cancelled w delay e refl)
          | inr e ↦
              elim (after_get-Advances w' attempt
                (env.get_with_optional_namespace w' namespace name) refl) [
                  | inl (w'', f, why) ↦ inl (w'', rw (e, requeue_round) f, why)
                  | inr (w'', later, next, f, below) ↦
                      inr (w'', later, next, rw (e, requeue_round) f, omega arith)
                ]
        ]

    requeue_loop-Returns :
        (n : ℕ) (w : env.World) (delay attempt : ℕ)
        → trouble w < n
        → Returns (requeue_loop env backoff n namespace name w delay attempt)
    unfolding requeue_loop
    requeue_loop-Returns zero w delay attempt k = absurd (omega arith)
    requeue_loop-Returns (suc n) w delay attempt k = elim (requeue_round-Advances w delay attempt) [
      | inl (w', e, why) ↦ (w', rw (e, requeue_loop) refl, why)
      | inr (w', later, next, e, below) ↦
          let (w'', f, why) = requeue_loop-Returns n w' later next (omega arith) in
          (w'', rw (e, requeue_loop) f, why)
    ]

    -- When troubles come to an end the task of a named resource does too, whatever the delays and
    -- the result that it starts from: after at most one round more than there are troubles it has
    -- returned, either at once, since the result asks for nothing, or since the token was cancelled,
    -- the resource was gone or a reconciliation succeeded that asks for no other.
    pub process_reconcile_result-ends :
        (event : ReconcileEvent env.T) (w : env.World) (result : Result String Action) (attempt : ℕ)
        → let meta = env.object_meta (event_resource event) in
          meta_name meta ≡ some name
          → meta_namespace meta ≡ namespace
          → (w' : env.World) × (process_reconcile_result env backoff
                (suc (trouble w))
                event
                w
                result
                attempt
              ≡ returned w')
            × (((action : Action) × (result ≡ ok action) × (action.requeue_after ≡ none) × (w' ≡ w))
                ⊎ HasEnded w')
    unfolding process_reconcile_result process_action process_requeue
    process_reconcile_result-ends event w (err e) attempt named placed =
        let (w', f, why) =
          requeue_loop-Returns (suc (trouble w)) w (delay_for backoff attempt)
            (one_more_attempt attempt) (omega arith) in
        (w', rw (named, placed, process_reconcile_result, process_requeue) f, inr why)
    process_reconcile_result-ends event w (ok action) attempt named placed =
        elim (Option-cases action.requeue_after) [
          | inl e ↦ (
            w,
            rw (e, process_reconcile_result, process_action) refl,
            inl (action, refl, e, refl),
          )
          | inr (delay, e) ↦
              let (w', f, why) = requeue_loop-Returns (suc (trouble w)) w delay 0 (omega arith) in
              (
                w',
                rw (e, named, placed, process_reconcile_result, process_action, process_requeue) f,
                inr why,
              )
        ]
