-- ===== src/Scheduler/LeaderElection.antt =====
-- tugboat-scheduler/src/leader_election.rs: how a scheduler takes and keeps the lease that lets it
-- schedule. The lease API and the clock are a parameter; each call moves its state on. Sums of i64
-- values wrap, as they do in a release build.
pub mod Leases
use tugboat.Base.{
  ℕ, zero, suc, ◌^◌, String, Bool, true, false, Option, none, some, List, [], is_some_and, ◌>>=◌,
  ◌==◌, ltb, if◌then◌else◌,
}
use tugboat.Base.Int.{ℤ, pos, add_i64, ltb_ℤ, as_i64}
use tugboat.Manifests.Meta.{ObjectMeta, Time}
use tugboat.Manifests.Lease.{Lease, LeaseSpec}
use mathlib.Core.Option

-- How the API answers a write: `conflict` is the status 409.
pub data Answer : Type 0 where
  granted : Answer
  conflict : Answer
  failed : Answer

-- How it answers a read of the lease.
pub data Found : Type 0 where
  found : Lease → Found
  absent : Found
  unread : Found

pub record LeaseApi : Type 1 where
  pub World : Type 0
  pub get : World → Found × World
  pub create : World → Lease → Answer × World
  pub replace : World → Lease → Answer × World
  pub now : World → Time × World

pub record LeaderElector : Type 0 where
  pub identity : String
  pub lease_duration_seconds : ℕ
  pub is_leader : Bool

abbrev pub lease_meta : ObjectMeta
lease_meta = record {
  name = some "tugboat-scheduler";
  namespace = some "tugboat-system";
  uid = none;
  resource_version = none;
  creation_timestamp = none;
  deletion_timestamp = none;
  labels = [];
  annotations = [];
  owner_references = [];
  finalizers = [];
}

abbrev pub first_lease : LeaderElector → Time → Lease
first_lease elector now = record {
  object_meta = some lease_meta;
  spec = some (record {
    acquire_time = some now;
    holder_identity = elector.identity;
    lease_duration_seconds = as_i64 elector.lease_duration_seconds;
    lease_transitions = pos 0;
    preferred_holder = "";
    renew_time = some now;
    strategy = "";
  });
}

abbrev pub renewed : Time → Lease → Lease
renewed now lease = record lease {
  spec = Option.map (λ (s : LeaseSpec). record s { renew_time = some now }) lease.spec;
}

-- The lease with this elector as its new holder.
abbrev pub taken_over : LeaderElector → Time → Lease → Lease
taken_over elector now lease = record lease {
  spec =
      Option.map
        (λ (s : LeaseSpec). record s {
          holder_identity = elector.identity;
          acquire_time = some now;
          renew_time = some now;
          lease_transitions = add_i64 s.lease_transitions (pos 1);
          lease_duration_seconds = as_i64 elector.lease_duration_seconds;
        })
        lease.spec;
}

abbrev pub is_held_by : String → Lease → Bool
is_held_by identity lease = is_some_and lease.spec (λ s. s.holder_identity == identity)

-- The lease has a renewal time, and its duration has not passed since.
abbrev pub is_valid_at : Time → Lease → Bool
is_valid_at now lease = is_some_and lease.spec (λ s.
    is_some_and s.renew_time (λ t. ltb_ℤ now.seconds (add_i64 t.seconds s.lease_duration_seconds)))

abbrev pub has_renew_time : Lease → Bool
has_renew_time lease = is_some_and lease.spec (λ s. is_some_and s.renew_time (λ t. true))

abbrev pub is_granted : Answer → Bool
is_granted granted = true
is_granted conflict = false
is_granted failed = false

module _ (api : LeaseApi) where
  abbrev Outcome : Type 0
  Outcome = Bool × LeaderElector × api.World

  -- `self.is_leader = leads; leads`.
  abbrev conclude : Bool → LeaderElector → api.World → Outcome
  conclude leads elector w = (leads, record elector { is_leader = leads }, w)

  unfoldable pub try_create_lease : api.World → LeaderElector → Outcome
  try_create_lease w elector =
      let (now, w') = api.now w in
      let (answer, w'') = api.create w' (first_lease elector now) in
      conclude (is_granted answer) elector w''

  unfoldable pub acquire_expired_lease : api.World → LeaderElector → Lease → Outcome
  acquire_expired_lease w elector lease =
      let (now, w') = api.now w in
      let (answer, w'') = api.replace w' (taken_over elector now lease) in
      conclude (is_granted answer) elector w''

  -- The loop of `renew_lease` with the rounds that are left.
  pub renew_loop : ℕ → api.World → LeaderElector → Lease → Outcome
  renew_loop zero w elector lease = conclude false elector w
  renew_loop (suc rounds) w elector lease =
      let (now, w1) = api.now w in
      let (answer, w2) = api.replace w1 (renewed now lease) in
      elim answer [
        | granted ↦ conclude true elector w2
        | failed ↦ conclude false elector w2
        | conflict ↦
            let (latest, w3) = api.get w2 in
            elim latest [
              | found next ↦ elim (is_held_by elector.identity next) [
                | true ↦ renew_loop rounds w3 elector next
                | false ↦ conclude false elector w3
              ]
              | absent ↦ conclude false elector w3
              | unread ↦ conclude false elector w3
            ]
      ]

  unfoldable pub renew_lease : api.World → LeaderElector → Lease → Outcome
  unfolding renew_loop
  renew_lease w elector lease = renew_loop 5 w elector lease

  -- The clock is only read for a lease with a renewal time.
  unfoldable pub try_update_lease : api.World → LeaderElector → Lease → Outcome
  unfolding renew_lease acquire_expired_lease
  try_update_lease w elector lease = elim (is_held_by elector.identity lease) [
    | true ↦ renew_lease w elector lease
    | false ↦ elim (has_renew_time lease) [
      | false ↦ acquire_expired_lease w elector lease
      | true ↦
          let (now, w') = api.now w in
          elim (is_valid_at now lease) [
            | true ↦ conclude false elector w'
            | false ↦ acquire_expired_lease w' elector lease
          ]
    ]
  ]

  unfoldable pub try_acquire_or_renew : api.World → LeaderElector → Outcome
  unfolding try_update_lease try_create_lease
  try_acquire_or_renew w elector =
      let (answer, w') = api.get w in
      elim answer [
        | found lease ↦ try_update_lease w' elector lease
        | absent ↦ try_create_lease w' elector
        | unread ↦ conclude false elector w'
      ]
