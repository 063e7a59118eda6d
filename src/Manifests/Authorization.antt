-- ===== src/Manifests/Authorization.antt =====
-- tugboat-resources/proto/authorization/v1, as far as the authorizer reads it.
use tugboat.Base.{String, Option, List}

pub record PolicyRule : Type 0 where
  pub api_groups : List String
  pub resources : List String
  pub resource_names : List String
  pub verbs : List String

pub record Subject : Type 0 where
  pub kind : String
  pub name : String
  pub namespace : Option String

pub record RoleRef : Type 0 where
  pub api_group : String
  pub kind : String
  pub name : String

pub record ClusterRoleBinding : Type 0 where
  pub subjects : List Subject
  pub role_ref : Option RoleRef

pub record RoleBinding : Type 0 where
  pub subjects : List Subject
  pub role_ref : Option RoleRef

pub record Role : Type 0 where
  pub rules : List PolicyRule

pub record ClusterRole : Type 0 where
  pub rules : List PolicyRule
