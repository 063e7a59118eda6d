-- ===== src/Manifests/Lease.antt =====
-- tugboat-resources/proto/coordination/v1/lease.proto, as far as the scheduler uses it.
use tugboat.Base.{String, Option}
use tugboat.Base.Int.{ℤ}
use tugboat.Manifests.Meta.{ObjectMeta, Time}

pub record LeaseSpec : Type 0 where
  pub acquire_time : Option Time
  pub holder_identity : String
  pub lease_duration_seconds : ℤ
  pub lease_transitions : ℤ
  pub preferred_holder : String
  pub renew_time : Option Time
  pub strategy : String

pub record Lease : Type 0 where
  pub object_meta : Option ObjectMeta
  pub spec : Option LeaseSpec
