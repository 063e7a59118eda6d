-- ===== src/Scheduler/Examples/Election.antt =====
-- The theorems on leader election at an API that holds one lease and grants every replacement.
use tugboat.Base.{◌-◌, ◌^◌, ◌≡◌, refl, String, true, false, Option, none, some, ◌>>=◌, arith}
use tugboat.Base.Int.{pos, ◌+ℤ◌, wrap_i64}
use tugboat.Manifests.Meta.{Time}
use tugboat.Manifests.Lease.{Lease, LeaseSpec}
use tugboat.Scheduler.LeaderElection.{
  Found, found, absent, granted, failed, LeaseApi, LeaderElector, lease_meta, try_acquire_or_renew,
}
use tugboat.Scheduler.LeaderElection.Leases.{
  Stores, try_acquire_or_renew-backed, try_acquire_or_renew-respects_holder,
}

abbrev noon : Time
noon = record { seconds = pos 43200; nanos = pos 0 }

abbrev read_lease : Option Lease → Found
read_lease none = absent
read_lease (some lease) = found lease

abbrev one_lease : LeaseApi
one_lease = record {
  World = Option Lease;
  get = λ w. (read_lease w, w);
  create = λ w lease. elim w [ none ↦ (granted, some lease) | some old ↦ (failed, some old) ];
  replace = λ w lease. (granted, some lease);
  now = λ w. (noon, w);
}

abbrev stored_spec : Option Lease → Option LeaseSpec
stored_spec w = do lease ← w; lease.spec

created :
    (w : Option Lease) (lease : Lease)
    → (one_lease.create w lease).0 ≡ granted
    → stored_spec (one_lease.create w lease).1 ≡ lease.spec
created none lease h = refl
created (some old) lease h = absurd (cc)

abbrev stores : Stores one_lease
stores = record {
  stored = stored_spec;
  create_granted = created;
  replace_granted = λ w lease h. refl;
}

abbrev elector_of : String → LeaderElector
elector_of identity = record { identity = identity; lease_duration_seconds = 15; is_leader = true }

abbrev spec_of_first : LeaseSpec
spec_of_first = record {
  acquire_time = some noon;
  holder_identity = "first";
  lease_duration_seconds = pos 15;
  lease_transitions = pos 0;
  preferred_holder = "";
  renew_time = some noon;
  strategy = "";
}

abbrev lease_of_first : Lease
lease_of_first = record { object_meta = some lease_meta; spec = some spec_of_first }

try_acquire_or_renew-backed_example : spec_of_first.holder_identity ≡ (elector_of "first").identity
unfolding try_acquire_or_renew
try_acquire_or_renew-backed_example =
    try_acquire_or_renew-backed one_lease stores none (elector_of "first") refl spec_of_first refl

try_acquire_or_renew-respects_holder_example :
    try_acquire_or_renew one_lease (some lease_of_first) (elector_of "second") ≡ (
      false,
      record { identity = "second"; lease_duration_seconds = 15; is_leader = false },
      some lease_of_first,
    )
unfolding ◌+ℤ◌
try_acquire_or_renew-respects_holder_example =
    try_acquire_or_renew-respects_holder one_lease (some lease_of_first) (elector_of "second")
      lease_of_first spec_of_first noon refl refl (λ e. absurd (cc)) refl (omega arith, omega arith)
      (omega arith)

-- A duration near the greatest i64 makes the sum wrap to before the present: the lease of a holder
-- that has just renewed it is taken over.
abbrev endless_lease : Lease
endless_lease = record lease_of_first {
  spec = some (record spec_of_first { lease_duration_seconds = pos (2 ^ 63 - 1) });
}

endless_lease_taken :
    (try_acquire_or_renew one_lease (some endless_lease) (elector_of "second")).0 ≡ true
unfolding try_acquire_or_renew ◌+ℤ◌ wrap_i64
endless_lease_taken = refl
