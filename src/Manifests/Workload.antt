-- ===== src/Manifests/Workload.antt =====
-- apps/v1: deployment.proto, replica_set.proto and workload.proto.
use tugboat.Base.{String, Option}
use tugboat.Base.Int.{ℤ}
use tugboat.Base.Dict.{Dict}
use tugboat.Manifests.Meta.{ObjectMeta}
use tugboat.Manifests.Ship.{ShipSpec}

pub record ShipTemplateSpec : Type 0 where
  pub metadata : Option ObjectMeta
  pub spec : Option ShipSpec

pub record ReplicaSetSpec : Type 0 where
  pub replicas : Option ℤ
  pub selector : Dict String
  pub ship_template : Option ShipTemplateSpec

pub record ReplicaSetStatus : Type 0 where
  pub replicas : ℤ
  pub ready_replicas : ℤ

pub record ReplicaSet : Type 0 where
  pub object_meta : Option ObjectMeta
  pub spec : Option ReplicaSetSpec
  pub status : Option ReplicaSetStatus

pub record RollingUpdateStrategy : Type 0 where
  pub max_surge : Option ℤ
  pub max_unavailable : Option ℤ

pub record DeploymentStrategy : Type 0 where
  pub rolling_update : Option RollingUpdateStrategy

pub record DeploymentSpec : Type 0 where
  pub replicas : Option ℤ
  pub selector : Dict String
  pub strategy : Option DeploymentStrategy
  pub revision_history_limit : Option ℤ

pub record Deployment : Type 0 where
  pub object_meta : Option ObjectMeta
  pub spec : Option DeploymentSpec

pub record DeploymentStatus : Type 0 where
  pub replicas : ℤ
  pub ready_replicas : ℤ
  pub updated_replicas : ℤ
