-- ===== src/Manifests/Meta.antt =====
-- meta/v1: object_meta.proto and time.proto.
use tugboat.Base.{
  ◌≡◌, ap, true, eq_iff, String, Bool, Option, none, some, List, ◌>>=◌, is_some_and, ◌==◌,
}
use tugboat.Base.Int.{ℤ}
use tugboat.Base.Dict.{Dict}

pub record Time : Type 0 where
  pub seconds : ℤ
  pub nanos : ℤ

pub record OwnerReference : Type 0 where
  pub api_version : String
  pub kind : String
  pub name : String
  pub uid : String
  pub controller : Option Bool

pub record ObjectMeta : Type 0 where
  pub name : Option String
  pub namespace : Option String
  pub uid : Option String
  pub resource_version : Option String
  pub creation_timestamp : Option Time
  pub deletion_timestamp : Option Time
  pub labels : Dict String
  pub annotations : Dict String
  pub owner_references : List OwnerReference
  pub finalizers : List String

-- `ObjectMeta::default()`.
abbrev pub default_meta : ObjectMeta
default_meta = record {
  name = none;
  namespace = none;
  uid = none;
  resource_version = none;
  creation_timestamp = none;
  deletion_timestamp = none;
  labels = List.[];
  annotations = List.[];
  owner_references = List.[];
  finalizers = List.[];
}

-- `object_meta.as_ref().and_then(|m| m.name.as_deref())`, and the same for the namespace.
abbrev pub meta_name : Option ObjectMeta → Option String
meta_name meta = do m ← meta; m.name

abbrev pub meta_namespace : Option ObjectMeta → Option String
meta_namespace meta = do m ← meta; m.namespace

-- `object_meta.as_ref().map(|meta| &meta.labels).cloned().unwrap_or_default()`.
abbrev pub meta_labels : Option ObjectMeta → Dict String
meta_labels none = List.[]
meta_labels (some meta) = meta.labels

-- `o == Some(name)`.
abbrev pub is_named : Option String → String → Bool
is_named o name = is_some_and o (λ n. n == name)

pub is_named-eq : (o : Option String) (name : String) → is_named o name ≡ true → o ≡ some name
is_named-eq none name h = absurd (cc)
is_named-eq (some n) name h = ap some ((eq_iff n name).0 h)
