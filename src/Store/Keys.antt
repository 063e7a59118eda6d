-- ===== src/Store/Keys.antt =====
-- tugboat-resource-store/src/lib.rs: the keys that resources are stored under, and the traits of a
-- resource type that the store uses. Protobuf encoding is third-party code, a parameter.
use Prim.Native.String
use tugboat.Base.{String, Bool, true, false, Option, none, some}
use tugboat.Base.Results.{Result, ok, ◌>>=◌, ok_or}
use tugboat.Base.Int.{ℤ}
use tugboat.Manifests.Meta.{ObjectMeta}
use tugboat.Store.Etcd.{Bytes}

pub data Error : Type 0 where
  unsupported_type : Error
  protobuf_deserialization : String → Error
  field_missing : String → Error
  invalid_field : String → String → Error
  io : String → Error
  etcd_error : String → Error
  event_emit : String → Error
  optimistic_lock_failed : ℤ → Error

-- `StaticSerializable + ObjectMetaResource` of a type.
pub record ResourceType : Type 1 where
  pub T : Type 0
  pub object_meta : T → Option ObjectMeta
  pub modify_object_meta : (Option ObjectMeta → Option ObjectMeta) → T → T
  pub is_cluster_scoped : Bool
  pub group : String
  pub plural : String
  pub serialize : T → Result Error Bytes
  pub deserialize : Bytes → Result Error T

infixr 60 ◌/+◌
-- Two parts of a path, as `format!("{a}/{b}")` puts them together.
abbrev pub ◌/+◌ : String → String → String
a /+ b = String.◌++◌ a (String.◌++◌ "/" b)

abbrev pub base_path : String
base_path = "/tugboat/registry"

unfoldable pub create_custom_key : String → String → Option String → String → String
create_custom_key group plural (some ns) name = base_path /+ group /+ plural /+ ns /+ name
create_custom_key group plural none name = base_path /+ group /+ plural /+ name

unfoldable pub create_custom_watch_key : String → String → Option String → String
create_custom_watch_key group plural (some ns) = base_path /+ group /+ plural /+ ns /+ ""
create_custom_watch_key group plural none = base_path /+ group /+ plural /+ ""

module _ (R : ResourceType) where
  unfoldable pub create_key : Option String → String → Result Error String
  create_key namespace name = elim R.is_cluster_scoped [
    | true ↦ ok (base_path /+ R.group /+ R.plural /+ name)
    | false ↦ do
      ns ← ok_or namespace (field_missing "metadata.namespace")
      ok (base_path /+ R.group /+ R.plural /+ ns /+ name)
  ]

  unfoldable pub create_watch_key : Option String → String
  create_watch_key (some ns) = base_path /+ R.group /+ R.plural /+ ns /+ ""
  create_watch_key none = base_path /+ R.group /+ R.plural /+ ""
