-- ===== src/Manifests/Ship.antt =====
-- core/v1/ship.proto and ship_class.proto.
use tugboat.Base.{ℕ, String, Bool, Option, none, List, []}
use tugboat.Base.Int.{ℤ}
use tugboat.Manifests.Meta.{ObjectMeta, Time}
use tugboat.Manifests.Labels.{LabelSelector, NodeSelector, NodeSelectorTerm}
use tugboat.Manifests.Network.{ShipNetworkClassReference}

pub record PreferredSchedulingTerm : Type 0 where
  pub weight : ℤ
  pub preference : Option NodeSelectorTerm

pub record NodeAffinity : Type 0 where
  pub required_during_scheduling : Option NodeSelector
  pub preferred_during_scheduling : List PreferredSchedulingTerm

pub record ShipAffinityTerm : Type 0 where
  pub label_selector : Option LabelSelector
  pub namespaces : List String
  pub topology_key : String

pub record ShipAffinity : Type 0 where
  pub required_during_scheduling : List ShipAffinityTerm

pub record ShipAntiAffinity : Type 0 where
  pub required_during_scheduling : List ShipAffinityTerm

pub record Affinity : Type 0 where
  pub node_affinity : Option NodeAffinity
  pub ship_affinity : Option ShipAffinity
  pub ship_anti_affinity : Option ShipAntiAffinity

pub record TopologySpreadConstraint : Type 0 where
  pub max_skew : ℤ
  pub topology_key : String
  pub when_unsatisfiable : String
  pub label_selector : Option LabelSelector

pub record PersistentVolumeClaimVolumeSource : Type 0 where
  pub claim_name : String

pub record ShipVolume : Type 0 where
  pub name : String
  pub persistent_volume_claim : Option PersistentVolumeClaimVolumeSource

pub record Toleration : Type 0 where
  pub key : Option String
  pub operator : String
  pub value : Option String
  pub effect : String

pub record ShipSpec : Type 0 where
  pub image : String
  pub ship_class : String
  pub node_name : Option String
  pub network_class_ref : List ShipNetworkClassReference
  pub tolerations : List Toleration
  pub scheduler_name : Option String
  pub volumes : List ShipVolume
  pub target_node_name : Option String
  pub runtime_class : Option String
  pub affinity : Option Affinity
  pub topology_spread_constraints : List TopologySpreadConstraint

-- `ShipSpec::default()`.
abbrev pub default_ship_spec : ShipSpec
default_ship_spec = record {
  image = "";
  ship_class = "";
  node_name = none;
  network_class_ref = [];
  tolerations = [];
  scheduler_name = none;
  volumes = [];
  target_node_name = none;
  runtime_class = none;
  affinity = none;
  topology_spread_constraints = [];
}

pub record ShipCondition : Type 0 where
  pub status : String
  pub message : String
  pub timestamp : Option Time

pub record ShipMigrationStatus : Type 0 where
  pub phase : String

pub record ShipStatus : Type 0 where
  pub conditions : List ShipCondition
  pub migration : Option ShipMigrationStatus

pub record Ship : Type 0 where
  pub object_meta : Option ObjectMeta
  pub spec : Option ShipSpec
  pub status : Option ShipStatus

pub record CpuSpec : Type 0 where
  pub architecture : String
  pub cores : ℕ

pub record MemorySpec : Type 0 where
  pub size : String

pub record MigrationSpec : Type 0 where
  pub postcopy_enabled : Option Bool

pub record ShipClassSpec : Type 0 where
  pub cpu : Option CpuSpec
  pub memory : Option MemorySpec
  pub migration : Option MigrationSpec

pub record ShipClass : Type 0 where
  pub object_meta : Option ObjectMeta
  pub spec : Option ShipClassSpec
