-- ===== src/Manifests/Storage.antt =====
-- core/v1: persistent_volume.proto, persistent_volume_claim.proto, storage_class.proto.
use tugboat.Base.{String, Option, List}
use tugboat.Manifests.Meta.{ObjectMeta}
use tugboat.Manifests.Labels.{NodeSelector, TopologySelectorTerm}

pub record PersistentVolumeClaimSpec : Type 0 where
  pub access_modes : List String
  pub storage_class_name : Option String
  pub volume_name : Option String

pub record PersistentVolumeClaim : Type 0 where
  pub object_meta : Option ObjectMeta
  pub spec : Option PersistentVolumeClaimSpec

pub record VolumeNodeAffinity : Type 0 where
  pub required : Option NodeSelector

pub record PersistentVolumeSpec : Type 0 where
  pub access_modes : List String
  pub node_affinity : Option VolumeNodeAffinity

pub record PersistentVolume : Type 0 where
  pub object_meta : Option ObjectMeta
  pub spec : Option PersistentVolumeSpec

pub record StorageClassSpec : Type 0 where
  pub volume_binding_mode : Option String
  pub allowed_topologies : List TopologySelectorTerm

pub record StorageClass : Type 0 where
  pub object_meta : Option ObjectMeta
  pub spec : Option StorageClassSpec
