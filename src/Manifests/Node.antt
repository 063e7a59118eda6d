-- ===== src/Manifests/Node.antt =====
-- core/v1/node.proto and runtime_class.proto.
use tugboat.Base.{ℕ, String, Bool, Option, List}
use tugboat.Manifests.Meta.{ObjectMeta}

pub record Taint : Type 0 where
  pub key : String
  pub value : String
  pub effect : String

pub record NodeOvercommitSpec : Type 0 where
  pub cpu_ratio : String
  pub memory_ratio : String

pub record NodeResource : Type 0 where
  pub cpu : ℕ
  pub memory : ℕ

pub record NodeSpec : Type 0 where
  pub overcommit : Option NodeOvercommitSpec
  pub resource : Option NodeResource
  pub taints : List Taint
  pub unschedulable : Option Bool

pub record NodeCniPluginStatus : Type 0 where
  pub name : String
  pub ready : Option Bool
  pub message : String

pub record NodeImageStatus : Type 0 where
  pub image : String

pub record NodeStatus : Type 0 where
  pub cni_plugins : List NodeCniPluginStatus
  pub images : List NodeImageStatus

pub record Node : Type 0 where
  pub object_meta : Option ObjectMeta
  pub spec : Option NodeSpec
  pub status : Option NodeStatus

pub record RuntimeClassSpec : Type 0 where
  pub live_migration : Bool

pub record RuntimeClass : Type 0 where
  pub object_meta : Option ObjectMeta
  pub spec : Option RuntimeClassSpec
