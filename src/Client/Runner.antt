-- ===== src/Client/Runner.antt =====
-- tugboat-client/src/runtime/runner.rs and action.rs: what follows a reconciliation. The API, the
-- reconciler and the waiting are a parameter that moves a world on. A delay is its milliseconds.
pub mod Retries
pub mod Ending
use tugboat.Base.{ℕ, zero, suc, ◌+◌, ◌-◌, ◌^◌, min, String, Bool, true, false, Option, none, some}
use tugboat.Base.Results.{Result, ok, err}
use tugboat.Manifests.Meta.{ObjectMeta, meta_name, meta_namespace}
use tugboat.Client.Backoff.{BackoffConfig, delay_for}

pub record Action : Type 0 where
  pub requeue_after : Option ℕ

abbrev pub await_change : Action
await_change = record { requeue_after = none }

abbrev pub requeue : ℕ → Action
requeue duration = record { requeue_after = some duration }

abbrev pub requeue_immediately : Action
requeue_immediately = requeue 0

pub data ReconcileEvent {ℓ} (T : Type ℓ) : Type ℓ where
  applied : T → ReconcileEvent T
  deleted : T → ReconcileEvent T

abbrev pub event_resource {ℓ} : {T : Type ℓ} → ReconcileEvent T → T
event_resource (applied resource) = resource
event_resource (deleted resource) = resource

-- What the loop calls: `wait` sleeps and then says whether the token was cancelled.
pub record Surroundings : Type 1 where
  pub World : Type 0
  pub T : Type 0
  pub object_meta : T → Option ObjectMeta
  pub wait : World → ℕ → Bool × World
  pub get_with_optional_namespace :
      World → Option String → String → Result String (Option T) × World
  pub reconcile : World → ReconcileEvent T → Result String Action × World

abbrev pub u32_max : ℕ
u32_max = 2 ^ 32 - 1

-- `attempt.saturating_add(1)`.
abbrev pub one_more_attempt : ℕ → ℕ
one_more_attempt attempt = min (attempt + 1) u32_max

-- The loop returned, or it goes on with this delay and number of failures in a row.
pub data Progress {ℓ} (W : Type ℓ) : Type ℓ where
  returned : W → Progress W
  again : W → ℕ → ℕ → Progress W

module _ (env : Surroundings) (backoff : BackoffConfig) where
  abbrev retry : env.World → ℕ → Progress env.World
  retry w attempt = again w (delay_for backoff attempt) (one_more_attempt attempt)

  abbrev pub after_reconcile : ℕ → Result String Action × env.World → Progress env.World
  after_reconcile attempt (err e, w) = retry w attempt
  after_reconcile attempt (ok action, w) = elim action.requeue_after [
    | none ↦ returned w
    | some next_delay ↦ again w next_delay 0
  ]

  abbrev pub after_get : ℕ → Result String (Option env.T) × env.World → Progress env.World
  after_get attempt (err e, w) = retry w attempt
  after_get attempt (ok none, w) = returned w
  after_get attempt (ok (some latest), w) =
      after_reconcile attempt (env.reconcile w (applied latest))

  -- One round of the `loop`.
  unfoldable pub requeue_round : Option String → String → env.World → ℕ → ℕ → Progress env.World
  requeue_round namespace name w delay attempt =
      let (is_cancelled, w') = env.wait w delay in
      elim is_cancelled [
        | true ↦ returned w'
        | false ↦ after_get attempt (env.get_with_optional_namespace w' namespace name)
      ]

  -- The rounds of the `loop`, as many as the first argument says.
  unfoldable pub requeue_loop : ℕ → Option String → String → env.World → ℕ → ℕ → Progress env.World
  unfolding requeue_round
  requeue_loop zero namespace name w delay attempt = again w delay attempt
  requeue_loop (suc rounds) namespace name w delay attempt =
      elim (requeue_round namespace name w delay attempt) [
        | returned w' ↦ returned w'
        | again w' delay' attempt' ↦ requeue_loop rounds namespace name w' delay' attempt'
      ]

  unfoldable pub process_requeue : ℕ → ReconcileEvent env.T → env.World → ℕ → ℕ → Progress env.World
  unfolding requeue_loop
  process_requeue rounds event w delay attempt =
      let meta = env.object_meta (event_resource event) in
      elim (meta_name meta) [
        | none ↦ returned w
        | some name ↦ requeue_loop rounds (meta_namespace meta) name w delay attempt
      ]

  unfoldable pub process_action : ℕ → ReconcileEvent env.T → env.World → Action → Progress env.World
  unfolding process_requeue
  process_action rounds event w action = elim action.requeue_after [
    | none ↦ returned w
    | some delay ↦ process_requeue rounds event w delay 0
  ]

  unfoldable pub process_reconcile_result :
      ℕ → ReconcileEvent env.T → env.World → Result String Action → ℕ → Progress env.World
  unfolding process_requeue process_action
  process_reconcile_result rounds event w (ok action) attempt = process_action rounds event w action
  process_reconcile_result rounds event w (err e) attempt =
      process_requeue rounds event w (delay_for backoff attempt) (one_more_attempt attempt)
