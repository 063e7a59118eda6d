-- ===== src/Manifests/Network.antt =====
-- core/v1/network_class.proto.
use tugboat.Base.{String, Bool, Option, List}
use tugboat.Manifests.Meta.{ObjectMeta}

pub record ShipNetworkClassReference : Type 0 where
  pub kind : String
  pub name : String
  pub api_group : String

pub record FlannelNetworkClass : Type 0 where
  pub port_mappings : Option Bool

pub record NetworkClassSpec : Type 0 where
  pub cni_plugin : String
  pub flannel : Option FlannelNetworkClass

pub record NetworkClassStatus : Type 0 where
  pub ready_nodes : List String

pub record NetworkClass : Type 0 where
  pub object_meta : Option ObjectMeta
  pub spec : Option NetworkClassSpec
  pub status : Option NetworkClassStatus

pub record ClusterNetworkClass : Type 0 where
  pub object_meta : Option ObjectMeta
  pub spec : Option NetworkClassSpec
  pub status : Option NetworkClassStatus
