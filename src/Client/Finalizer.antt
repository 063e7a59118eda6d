-- ===== src/Client/Finalizer.antt =====
-- tugboat-client/src/runtime/finalizer.rs: how a controller guards a resource with a finalizer. The
-- API of the resource and the controller's handler are parameters over one world.
pub mod Ownership
use tugboat.Base.{◌≡◌, String, Bool, true, false, not, ◌&&◌, Option, none, some, if◌then◌else◌}
use tugboat.Base.Results.{Result, ok, err}
use tugboat.Manifests.Meta.{ObjectMeta, meta_name}
use tugboat.Manifests.Resource.{
  has_finalizer, has_finalizers, add_finalizer, remove_finalizer, is_deleting,
}
use tugboat.Client.Runner.{Action, await_change, requeue_immediately}

pub data FinalizerEvent {ℓ} (T : Type ℓ) : Type ℓ where
  apply : T → FinalizerEvent T
  cleanup : T → FinalizerEvent T

pub data FinalizerError : Type 0 where
  client_error : String → FinalizerError
  handler_error : String → FinalizerError
  missing_name : FinalizerError

pub data FinalizerTransition : Type 0 where
  add_finalizer_transition : FinalizerTransition
  apply_transition : FinalizerTransition
  cleanup_transition : FinalizerTransition
  noop_transition : FinalizerTransition

-- `Api<T>` and the type's metadata.
pub record ObjectApi : Type 1 where
  pub World : Type 0
  pub T : Type 0
  pub object_meta : T → Option ObjectMeta
  pub with_meta : Option ObjectMeta → T → T
  pub replace : World → String → T → Result String T × World
  pub delete : World → String → Result String Bool × World

abbrev pub transition_for : Option ObjectMeta → String → FinalizerTransition
transition_for meta name = elim (is_deleting meta) [
  | true ↦ elim (has_finalizer meta name) [ true ↦ cleanup_transition | false ↦ noop_transition ]
  | false ↦ elim (has_finalizer meta name) [
    | true ↦ apply_transition
    | false ↦ add_finalizer_transition
  ]
]

module _ (api : ObjectApi)
    (reconcile : api.World → FinalizerEvent api.T → Result String Action × api.World) where
  abbrev Outcome : Type 0
  Outcome = Result FinalizerError Action × api.World

  abbrev pub after_adding : Result String api.T × api.World → Outcome
  after_adding (err e, w) = (err (client_error e), w)
  after_adding (ok updated, w) = (ok requeue_immediately, w)

  abbrev pub after_apply : Result String Action × api.World → Outcome
  after_apply (err e, w) = (err (handler_error e), w)
  after_apply (ok action, w) = (ok action, w)

  -- A failed deletion is only logged.
  abbrev pub after_removing : String → Action → Result String api.T × api.World → Outcome
  after_removing name action (err e, w) = (err (client_error e), w)
  after_removing name action (ok updated, w) =
      let meta = api.object_meta updated in
      if is_deleting meta && not (has_finalizers meta)
      then (ok action, (api.delete w name).1)
      else (ok action, w)

  abbrev pub after_cleanup : String → String → api.T → Result String Action × api.World → Outcome
  after_cleanup name finalizer_name resource (err e, w) = (err (handler_error e), w)
  after_cleanup name finalizer_name resource (ok action, w) =
      let updated =
        api.with_meta (remove_finalizer (api.object_meta resource) finalizer_name) resource in
      after_removing name action (api.replace w name updated)

  unfoldable pub finalizer : api.World → String → api.T → Outcome
  finalizer w finalizer_name resource = elim (meta_name (api.object_meta resource)) [
    | none ↦ (err missing_name, w)
    | some name ↦ elim (transition_for (api.object_meta resource) finalizer_name) [
      | add_finalizer_transition ↦
          let updated =
            api.with_meta (add_finalizer (api.object_meta resource) finalizer_name) resource in
          after_adding (api.replace w name updated)
      | apply_transition ↦ after_apply (reconcile w (apply resource))
      | cleanup_transition ↦
          after_cleanup name finalizer_name resource (reconcile w (cleanup resource))
      | noop_transition ↦ (ok await_change, w)
    ]
  ]
