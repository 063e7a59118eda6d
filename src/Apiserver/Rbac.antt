-- ===== src/Apiserver/Rbac.antt =====
-- tugboat-apiserver/src/auth/rbac_authorizer.rs, with the types of user_info.rs and
-- authorization.rs: whether the bindings and roles of the store allow a request. The store is a
-- parameter: what its reads answer while one request is decided.
pub mod Grants
pub mod Accounts
use Prim.Native.String
use tugboat.Base.{
  ℕ, String, Bool, true, false, not, ◌&&◌, ◌||◌, Option, none, some, List, [], ◌∷◌, ◌++◌, map, any,
  is_empty, is_some_and, unwrap_or, ◌==◌, if◌then◌else◌,
}
use tugboat.Base.Results.{Result, ok, err, ◌>>=◌}
use tugboat.Base.Text.{is_blank, strip_prefix, split_once}
use tugboat.Manifests.Meta.{is_named}
use tugboat.Manifests.Authorization.{
  PolicyRule, Subject, RoleRef, ClusterRoleBinding, RoleBinding, Role, ClusterRole,
}
use mathlib.Core.Option

pub data UserIdentity : Type 0 where
  anonymous : UserIdentity
  service_account : UserIdentity
  x509 : UserIdentity
  oidc : UserIdentity

-- The map `extra` is left out: the authorizer does not read it.
pub record UserInfo : Type 0 where
  pub username : String
  pub uid : Option String
  pub groups : List String
  pub identity : UserIdentity

pub record AuthorizationRequest : Type 0 where
  pub user : UserInfo
  pub verb : String
  pub api_group : String
  pub resource : String
  pub resource_name : Option String
  pub namespace : Option String

-- Why a request is denied: a constructor for each `format!`.
pub data DenialReason : Type 0 where
  policy_unreadable : (error : String) → DenialReason
  no_rule : (verb api_group resource : String) → DenialReason

pub data AuthorizationDecision : Type 0 where
  allowed : AuthorizationDecision
  denied : DenialReason → AuthorizationDecision

-- The reads of `ResourceStore` that the authorizer uses.
pub record PolicyStore : Type 0 where
  pub cluster_role_bindings : Result String (List ClusterRoleBinding)
  pub role_bindings : (namespace : String) → Result String (List RoleBinding)
  pub role : (namespace name : String) → Result String (Option Role)
  pub cluster_role : (name : String) → Result String (Option ClusterRole)

abbrev pub is_service_account : UserIdentity → Bool
is_service_account service_account = true
is_service_account anonymous = false
is_service_account x509 = false
is_service_account oidc = false

-- `UserInfo::service_account` without the map `extra`, which the authorizer does not read.
unfoldable pub service_account_username : (namespace name : String) → String
service_account_username namespace name =
    String.◌++◌ "system:serviceaccount:" (String.◌++◌ namespace (String.◌++◌ ":" name))

unfoldable pub service_account_info : (namespace name : String) → Option String → UserInfo
unfolding service_account_username
service_account_info namespace name uid = record {
  username = service_account_username namespace name;
  uid = uid;
  groups =
      "system:serviceaccounts"
      ∷ String.◌++◌ "system:serviceaccounts:" namespace
      ∷ "system:authenticated"
      ∷ [];
  identity = service_account;
}

-- One of the values is the text.
abbrev pub has_value : List String → String → Bool
has_value values text = any (λ value. value == text) values

unfoldable pub is_superuser : UserInfo → Bool
is_superuser user = has_value user.groups "system:masters"

unfoldable pub parse_service_account_username : String → Option (String × String)
parse_service_account_username username =
    Option.bind (strip_prefix username "system:serviceaccount:") (λ rest. split_once rest b':')

unfoldable pub service_account_subject_matches_user : Subject → UserInfo → Bool
service_account_subject_matches_user subject user =
    is_service_account user.identity
    && is_some_and (parse_service_account_username user.username)
        (λ (p : String × String). is_named subject.namespace p.0 && subject.name == p.1)

unfoldable pub subject_matches_user : Subject → UserInfo → Bool
unfolding service_account_subject_matches_user
subject_matches_user subject user =
    if subject.kind == "User"
    then subject.name == user.username
    else if subject.kind == "Group"
    then has_value user.groups subject.name
    else if subject.kind == "ServiceAccount"
    then service_account_subject_matches_user subject user
    else false

abbrev pub subjects_match_user : List Subject → UserInfo → Bool
subjects_match_user subjects user = any (λ subject. subject_matches_user subject user) subjects

unfoldable pub matches_value : List String → String → Bool
matches_value values requested = any (λ value. value == "*" || value == requested) values

unfoldable pub matches_resource_name : List String → Option String → Bool
matches_resource_name resource_names requested =
    is_empty resource_names || is_some_and requested (has_value resource_names)

unfoldable pub rule_matches_request : PolicyRule → AuthorizationRequest → Bool
unfolding matches_value matches_resource_name
rule_matches_request rule request =
    matches_value rule.api_groups request.api_group
    && matches_value rule.resources request.resource
    && matches_value rule.verbs request.verb
    && matches_resource_name rule.resource_names request.resource_name

module _ (store : PolicyStore) where
  -- The rules of a role that was read; none if there is no such role.
  abbrev role_rules : Option Role → List PolicyRule
  role_rules none = []
  role_rules (some role) = role.rules

  abbrev cluster_role_rules_of : Option ClusterRole → List PolicyRule
  cluster_role_rules_of none = []
  cluster_role_rules_of (some role) = role.rules

  unfoldable pub resolve_role_ref : Option RoleRef → Option String → Result String (List PolicyRule)
  resolve_role_ref none namespace = ok []
  resolve_role_ref (some role_ref) namespace =
      if not (is_blank role_ref.api_group) && not (role_ref.api_group == "authorization")
      then ok []
      else if role_ref.kind == "Role"
      then elim namespace [
        | none ↦ ok []
        | some ns ↦ do role ← store.role ns role_ref.name; ok (role_rules role)
      ]
      else if role_ref.kind == "ClusterRole"
      then (do role ← store.cluster_role role_ref.name; ok (cluster_role_rules_of role))
      else ok []

  -- The loop over bindings, each with its subjects and its role.
  pub binding_rules :
      UserInfo
      → Option String
      → List (List Subject × Option RoleRef)
      → Result String (List PolicyRule)
  binding_rules user namespace [] = ok []
  binding_rules user namespace ((subjects, role_ref) ∷ bindings) =
      let rest = binding_rules user namespace bindings in
      if not (subjects_match_user subjects user)
      then rest
      else (do rules ← resolve_role_ref role_ref namespace; more ← rest; ok (rules ++ more))

  unfoldable pub cluster_role_rules : UserInfo → Result String (List PolicyRule)
  unfolding binding_rules
  cluster_role_rules user = do
    bindings ← store.cluster_role_bindings
    binding_rules user none (map (λ (b : ClusterRoleBinding). (b.subjects, b.role_ref)) bindings)

  unfoldable pub role_binding_rules : UserInfo → String → Result String (List PolicyRule)
  unfolding binding_rules
  role_binding_rules user namespace = do
    bindings ← store.role_bindings namespace
    binding_rules user (some namespace)
        (map (λ (b : RoleBinding). (b.subjects, b.role_ref)) bindings)

  -- The rules of the request's namespace, if it has one.
  pub namespaced_rules : UserInfo → Option String → Result String (List PolicyRule)
  namespaced_rules user none = ok []
  namespaced_rules user (some namespace) = role_binding_rules user namespace

  abbrev pub decide : AuthorizationRequest → List PolicyRule → AuthorizationDecision
  decide request rules =
      if any (λ rule. rule_matches_request rule request) rules
      then allowed
      else denied (no_rule request.verb request.api_group request.resource)

  unfoldable pub authorize_impl_with_store :
      AuthorizationRequest → Result String AuthorizationDecision
  unfolding cluster_role_rules role_binding_rules namespaced_rules
  authorize_impl_with_store request = if is_superuser request.user then ok allowed else (do
    rules ← cluster_role_rules request.user
    more ← namespaced_rules request.user request.namespace
    ok (decide request (rules ++ more)))

  abbrev pub decision_of : Result String AuthorizationDecision → AuthorizationDecision
  decision_of (ok decision) = decision
  decision_of (err error) = denied (policy_unreadable error)

  unfoldable pub authorize_with_store : AuthorizationRequest → AuthorizationDecision
  unfolding authorize_impl_with_store
  authorize_with_store request = decision_of (authorize_impl_with_store request)
