-- ===== src/Client/Queue.antt =====
-- tugboat-client/src/runtime/queue.rs: the tasks that reconcile resources, at most one for a resource.
-- Tasks run beside each other, so `spawn` is split where a task may be interrupted: at each lock of
-- the map and at each `await`. A task and its token go by the task's number, which is exact here
-- although the counter is a u64. A task for an event whose resource has no name does not touch the
-- map, and is left out.
pub mod Exclusion
use Prim.Native.String
use tugboat.Base.{
  ℕ, zero, suc, ◌≡◌, String, Bool, true, false, ◌||◌, Option, none, some, List, [], is_some_and,
  eqb, if◌then◌else◌,
}
use mathlib.Core.Option
use tugboat.Base.Dict.{Dict, get, insert, remove}
use tugboat.Manifests.Meta.{ObjectMeta, meta_name, meta_namespace}
use tugboat.Client.Runner.{ReconcileEvent, event_resource}

-- Where the task of a resource stands: it was spawned, has its entry in the map, has ended its
-- reconciliation, or has returned.
pub data Phase : Type 0 where
  unborn : Phase
  waiting : String → Phase
  running : String → Phase
  ended : String → Phase
  gone : Phase

pub record Queue : Type 0 where
  pub counter : ℕ
  pub in_flight : Dict ℕ
  pub phase : ℕ → Phase
  pub cancelled : ℕ → Bool
  pub parent_cancelled : Bool

-- `token.is_cancelled()`: a token is cancelled with its parent.
abbrev pub is_cancelled : Queue → ℕ → Bool
is_cancelled q id = q.parent_cancelled || q.cancelled id

abbrev pub update {ℓ} : {A : Type ℓ} → (ℕ → A) → ℕ → A → ℕ → A
update f i a j = if eqb i j then a else f j

abbrev pub cancel_previous : Option ℕ → (ℕ → Bool) → ℕ → Bool
cancel_previous none cancelled = cancelled
cancel_previous (some id) cancelled = update cancelled id true

-- `resource_key` of an event, by its resource's metadata.
unfoldable pub resource_key {ℓ} :
    {T : Type ℓ} → (T → Option ObjectMeta) → ReconcileEvent T → Option String
resource_key object_meta event =
    let meta = object_meta (event_resource event) in
    elim (meta_name meta) [
      | none ↦ none
      | some name ↦ elim (meta_namespace meta) [
        | none ↦ some name
        | some ns ↦ some (String.◌++◌ ns (String.◌++◌ "/" name))
      ]
    ]

unfoldable pub new : Queue
new = record {
  counter = 0;
  in_flight = [];
  phase = λ id. unborn;
  cancelled = λ id. false;
  parent_cancelled = false;
}

-- `spawn`, up to the task that it starts.
unfoldable pub spawn : String → Queue → Queue
spawn key q = record q { counter = suc q.counter; phase = update q.phase q.counter (waiting key) }

-- The task's first lock of the map: it cancels the task that has the entry and takes it. A task
-- whose token is cancelled already then returns.
unfoldable pub register : ℕ → String → Queue → Queue
register id key q =
    let registered = record q {
      in_flight = insert key id q.in_flight;
      cancelled = cancel_previous (get key q.in_flight) q.cancelled;
    } in
    record registered {
      phase = update q.phase id (if is_cancelled registered id then gone else running key);
    }

-- The reconciliation and what follows it are over, or were cancelled.
unfoldable pub end_task : ℕ → String → Queue → Queue
end_task id key q = record q { phase = update q.phase id (ended key) }

-- The task's second lock of the map: it takes its own entry out, if it still has one.
unfoldable pub unregister : ℕ → String → Queue → Queue
unregister id key q =
    let left =
      if is_some_and (get key q.in_flight) (λ i. eqb i id)
      then remove key q.in_flight
      else q.in_flight in
    record q { in_flight = left; phase = update q.phase id gone }

-- The parent token is cancelled.
unfoldable pub shut_down : Queue → Queue
shut_down q = record q { parent_cancelled = true }

-- What may happen next.
pub data Step (q : Queue) : Queue → Type 0 where
  spawns : (key : String) → Step q (spawn key q)
  registers : (id : ℕ) (key : String) → q.phase id ≡ waiting key → Step q (register id key q)
  ends : (id : ℕ) (key : String) → q.phase id ≡ running key → Step q (end_task id key q)
  unregisters : (id : ℕ) (key : String) → q.phase id ≡ ended key → Step q (unregister id key q)
  shuts_down : Step q (shut_down q)

-- The queues that any interleaving of tasks leads to.
pub data IsReachable : Queue → Type 0 where
  start : IsReachable new
  step : (q q' : Queue) → IsReachable q → Step q q' → IsReachable q'
