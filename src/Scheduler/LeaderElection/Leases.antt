-- ===== src/Scheduler/LeaderElection/Leases.antt =====
-- Who leads by tugboat-scheduler/src/leader_election.rs.
use tugboat.Base.{
  ℕ, zero, suc, ◌≡◌, refl, sym, ◌∙◌, ◌≢◌, ◌⊎◌, inl, inr, String, true, false, Option, some, arith,
  Bool-cases, Option-cases, eq_iff,
}
use tugboat.Base.Int.{◌+ℤ◌, ◌<ℤ◌, InI64, wrap_i64-eq}
use tugboat.Manifests.Meta.{Time}
use tugboat.Manifests.Lease.{Lease, LeaseSpec}
use tugboat.Scheduler.LeaderElection.{
  Answer, granted, conflict, failed, Found, found, absent, unread, LeaseApi, LeaderElector, Outcome,
  first_lease, renewed, taken_over, is_held_by, is_valid_at, has_renew_time, is_granted,
  try_create_lease, acquire_expired_lease, renew_loop, renew_lease, try_update_lease,
  try_acquire_or_renew,
}

is_granted-eq : (answer : Answer) → is_granted answer ≡ true → answer ≡ granted
is_granted-eq granted h = refl
is_granted-eq conflict h = absurd (cc)
is_granted-eq failed h = absurd (cc)

Answer-cases : (a : Answer) → (a ≡ granted) ⊎ ((a ≡ conflict) ⊎ (a ≡ failed))
Answer-cases granted = inl refl
Answer-cases conflict = inr (inl refl)
Answer-cases failed = inr (inr refl)

Found-cases : (r : Found) → ((lease : Lease) × (r ≡ found lease)) ⊎ ((r ≡ absent) ⊎ (r ≡ unread))
Found-cases (found lease) = inl (lease, refl)
Found-cases absent = inr (inl refl)
Found-cases unread = inr (inr refl)

-- What the API documents of a granted write: the spec that it stores is the one that was sent.
pub record Stores (api : LeaseApi) : Type 0 where
  pub stored : api.World → Option LeaseSpec
  pub create_granted :
      (w : api.World) (lease : Lease)
      → (api.create w lease).0 ≡ granted
      → stored (api.create w lease).1 ≡ lease.spec
  pub replace_granted :
      (w : api.World) (lease : Lease)
      → (api.replace w lease).0 ≡ granted
      → stored (api.replace w lease).1 ≡ lease.spec

-- The spec, if there is one, names the holder.
abbrev pub Names : String → Option LeaseSpec → Type 0
Names identity o = (spec : LeaseSpec) → o ≡ some spec → spec.holder_identity ≡ identity

held-Names :
    (identity : String) (lease : Lease)
    → is_held_by identity lease ≡ true
    → Names identity lease.spec
held-Names identity lease h spec e = (eq_iff spec.holder_identity identity).0 (ground arith)

renewed-Names :
    (identity : String) (now : Time) (lease : Lease)
    → Names identity lease.spec
    → Names identity (renewed now lease).spec
renewed-Names identity now lease h spec e = elim (Option-cases lease.spec) [
  | inl f ↦ absurd (ground arith)
  | inr (old, f) ↦ let same = h old f in ground arith
]

taken_over-Names :
    (elector : LeaderElector) (now : Time) (lease : Lease)
    → Names elector.identity (taken_over elector now lease).spec
taken_over-Names elector now lease spec e = elim (Option-cases lease.spec) [
  | inl f ↦ absurd (ground arith)
  | inr (old, f) ↦ ground arith
]

module _ (api : LeaseApi) (s : Stores api) (elector : LeaderElector) where
  -- If the call leads, the stored lease names the elector.
  abbrev IsBacked : Outcome api → Type 0
  IsBacked r = r.0 ≡ true → Names elector.identity (s.stored r.2)

  try_create_lease-IsBacked : (w : api.World) → IsBacked (try_create_lease api w elector)
  unfolding try_create_lease
  try_create_lease-IsBacked w h spec e =
      let w' = (api.now w).1 in
      let lease = first_lease elector (api.now w).0 in
      let k = s.create_granted w' lease (is_granted-eq _ h) in
      let same : some spec ≡ lease.spec = sym e ∙ k in cc

  acquire_expired_lease-IsBacked :
      (w : api.World) (lease : Lease) → IsBacked (acquire_expired_lease api w elector lease)
  unfolding acquire_expired_lease
  acquire_expired_lease-IsBacked w lease h spec e =
      let w' = (api.now w).1 in
      let k = s.replace_granted w' (taken_over elector (api.now w).0 lease) (is_granted-eq _ h) in
      taken_over-Names elector (api.now w).0 lease spec (sym k ∙ e)

  renew_loop-IsBacked :
      (rounds : ℕ) (w : api.World) (lease : Lease)
      → Names elector.identity lease.spec
      → IsBacked (renew_loop api rounds w elector lease)
  unfolding renew_loop
  renew_loop-IsBacked zero w lease n = λ h. absurd (cc)
  renew_loop-IsBacked (suc rounds) w lease n =
      let w1 = (api.now w).1 in
      let sent = renewed (api.now w).0 lease in
      let w2 = (api.replace w1 sent).1 in
      elim (Answer-cases (api.replace w1 sent).0) [
        | inl e ↦
            rw (e, renew_loop)
              (λ h spec f.
                renewed-Names elector.identity (api.now w).0 lease n spec
                  (sym (s.replace_granted w1 sent e) ∙ f))
        | inr (inr e) ↦ rw (e, renew_loop) (λ h. absurd (cc))
        | inr (inl e) ↦ elim (Found-cases (api.get w2).0) [
          | inl (next, f) ↦ elim (Bool-cases (is_held_by elector.identity next)) [
            | inl g ↦
                rw (e, f, g, renew_loop)
                  (renew_loop-IsBacked rounds (api.get w2).1 next
                    (held-Names elector.identity next g))
            | inr g ↦ rw (e, f, g, renew_loop) (λ h. absurd (cc))
          ]
          | inr (inl f) ↦ rw (e, f, renew_loop) (λ h. absurd (cc))
          | inr (inr f) ↦ rw (e, f, renew_loop) (λ h. absurd (cc))
        ]
      ]

  try_update_lease-IsBacked :
      (w : api.World) (lease : Lease) → IsBacked (try_update_lease api w elector lease)
  unfolding try_update_lease renew_lease
  try_update_lease-IsBacked w lease = elim (Bool-cases (is_held_by elector.identity lease)) [
    | inl e ↦
        rw (e, try_update_lease, renew_lease)
          (renew_loop-IsBacked 5 w lease (held-Names elector.identity lease e))
    | inr e ↦ elim (Bool-cases (has_renew_time lease)) [
      | inr f ↦ rw (e, f, try_update_lease) (acquire_expired_lease-IsBacked w lease)
      | inl f ↦ elim (Bool-cases (is_valid_at (api.now w).0 lease)) [
        | inl g ↦ rw (e, f, g, try_update_lease) (λ h. absurd (cc))
        | inr g ↦
            rw (e, f, g, try_update_lease) (acquire_expired_lease-IsBacked (api.now w).1 lease)
      ]
    ]
  ]

-- When a call leaves the elector leading, then the lease that the API holds names it, if that lease
-- has a spec: whichever way it came to lead, by the first lease, a renewal with its retries after
-- conflicts, or by taking over an expired one.
pub try_acquire_or_renew-backed :
    (api : LeaseApi) (s : Stores api) (w : api.World) (elector : LeaderElector)
    → (try_acquire_or_renew api w elector).0 ≡ true
    → (spec : LeaseSpec) → s.stored (try_acquire_or_renew api w elector).2 ≡ some spec
    → spec.holder_identity ≡ elector.identity
unfolding try_acquire_or_renew
try_acquire_or_renew-backed api s w elector = elim (Found-cases (api.get w).0) [
  | inl (lease, e) ↦
      rw (e, try_acquire_or_renew) (try_update_lease-IsBacked api s elector (api.get w).1 lease)
  | inr (inl e) ↦
      rw (e, try_acquire_or_renew) (try_create_lease-IsBacked api s elector (api.get w).1)
  | inr (inr e) ↦ rw (e, try_acquire_or_renew) (λ h. absurd (cc))
]

-- A lease that another holder renewed less than its duration ago is left alone: the elector does not
-- lead, and the API is only read. This is for an end of the lease that i64 can hold.
pub try_acquire_or_renew-respects_holder :
    (api : LeaseApi) (w : api.World) (elector : LeaderElector) (lease : Lease) (spec : LeaseSpec)
    (t : Time)
    → (api.get w).0 ≡ found lease
    → lease.spec ≡ some spec
    → spec.holder_identity ≢ elector.identity
    → spec.renew_time ≡ some t
    → InI64 (t.seconds +ℤ spec.lease_duration_seconds)
    → (api.now (api.get w).1).0.seconds <ℤ t.seconds +ℤ spec.lease_duration_seconds
    → try_acquire_or_renew api w elector
      ≡ (false, record elector { is_leader = false }, (api.now (api.get w).1).1)
unfolding try_acquire_or_renew try_update_lease
try_acquire_or_renew-respects_holder api w elector lease spec t e f other g range valid =
    let now = (api.now (api.get w).1).0 in
    let held : is_held_by elector.identity lease ≡ false =
      ground (arith, eq_iff spec.holder_identity elector.identity) in
    let timed : has_renew_time lease ≡ true = ground arith in
    let exact = wrap_i64-eq (t.seconds +ℤ spec.lease_duration_seconds) range in
    let lasts : is_valid_at now lease ≡ true = rw (f, g, exact) (ground arith) in
    rw (e, held, timed, lasts, try_acquire_or_renew, try_update_lease)
