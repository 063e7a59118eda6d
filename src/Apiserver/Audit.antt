-- ===== src/Apiserver/Audit.antt =====
-- tugboat-apiserver/src/auth/audit.rs with the types of config.rs, and its use of
-- endpoints/resource_registry.rs: how much of a request the audit log takes, by the rules of the
-- operator's policy. The verb is an argument; the writing of the log is left out.
pub mod Sensitive
use Prim.Native.String
use tugboat.Base.{
  ℕ, String, Bool, true, false, not, ◌&&◌, ◌||◌, Option, none, some, List, [], ◌∷◌, any, find,
  filter, is_empty, is_some, is_some_and, first, ◌==◌, ltb, if◌then◌else◌,
}
use tugboat.Base.Text.{is_blank, strip_prefix, strip_suffix, split_once}
use tugboat.Apiserver.Rbac.{UserInfo, has_value}
use mathlib.Core.Option

pub data AuditLevel : Type 0 where
  no_audit : AuditLevel
  metadata : AuditLevel
  request_level : AuditLevel
  request_response : AuditLevel

pub record AuditResourceSelector : Type 0 where
  pub group : String
  pub resources : List String

pub record AuditRule : Type 0 where
  pub level : AuditLevel
  pub verbs : List String
  pub users : List String
  pub user_groups : List String
  pub namespaces : List String
  pub resources : List AuditResourceSelector
  pub non_resource_urls : List String

pub record PolicyInput : Type 0 where
  pub verb : String
  pub user : UserInfo
  pub namespace : Option String
  pub api_group : String
  pub resource : String
  pub non_resource_url : Option String

unfoldable pub strip_subresource : String → String
strip_subresource resource = elim (split_once resource b'/') [
  | none ↦ resource
  | some parts ↦ parts.0
]

unfoldable pub is_sensitive_audit_resource : String → Bool
unfolding strip_subresource
is_sensitive_audit_resource resource =
    strip_subresource resource == "secrets" || resource == "serviceaccounts/token"

abbrev without_bodies : AuditLevel → AuditLevel
without_bodies no_audit = no_audit
without_bodies metadata = metadata
without_bodies request_level = metadata
without_bodies request_response = metadata

unfoldable pub clamp_sensitive_level : String → AuditLevel → AuditLevel
unfolding is_sensitive_audit_resource
clamp_sensitive_level resource level =
    if not (is_sensitive_audit_resource resource) then level else without_bodies level

abbrev api_group_matches : (selector_group request_group : String) → Bool
api_group_matches selector_group request_group =
    is_blank selector_group
    || selector_group == request_group
    || (selector_group == "core" && is_blank request_group)

abbrev starts_with : (text prefix : String) → Bool
starts_with text prefix = is_some (strip_prefix text prefix)

non_resource_url_matches : (pattern url : String) → Bool
unfolding strip_prefix strip_suffix
non_resource_url_matches pattern url = elim (strip_suffix pattern "/*") [
  | some prefix ↦ url == prefix || starts_with url (String.◌++◌ prefix "/")
  | none ↦ elim (strip_suffix pattern "*") [
    | some prefix ↦ starts_with url prefix
    | none ↦ pattern == url
  ]
]

abbrev selector_matches : PolicyInput → AuditResourceSelector → Bool
selector_matches request selector =
    api_group_matches selector.group request.api_group
    && (is_empty selector.resources
        || any (λ r. r == request.resource || r == strip_subresource request.resource || r == "*")
            selector.resources)

-- The early returns of `rule_matches` in their order.
unfoldable pub rule_matches : AuditRule → PolicyInput → Bool
unfolding non_resource_url_matches strip_subresource
rule_matches rule request =
    if not (is_empty rule.verbs) && not (has_value rule.verbs request.verb)
    then false
    else if not (is_empty rule.users) && not (has_value rule.users request.user.username)
    then false
    else if not (is_empty rule.user_groups)
        && not (any (λ g. has_value request.user.groups g) rule.user_groups)
    then false
    else if not (is_empty rule.namespaces)
        && not (any (λ ns. is_some_and request.namespace (λ n. ns == n)) rule.namespaces)
    then false
    else if not (is_empty rule.non_resource_urls)
        && not (
            is_some_and request.non_resource_url
              (λ url. any (λ pattern. non_resource_url_matches pattern url) rule.non_resource_urls))
    then false
    else if not (is_empty rule.resources) && not (any (selector_matches request) rule.resources)
    then false
    else true

unfoldable pub select_level : List AuditRule → PolicyInput → AuditLevel
unfolding rule_matches clamp_sensitive_level
select_level rules request =
    clamp_sensitive_level request.resource (elim (find (λ rule. rule_matches rule request) rules) [
      | none ↦ no_audit
      | some rule ↦ rule.level
    ])

-- Which bodies the middleware records, with the limits of its sink.
abbrev pub captures_request : AuditLevel → (max_request_body_bytes : ℕ) → Bool
captures_request no_audit most = false
captures_request metadata most = false
captures_request request_level most = ltb 0 most
captures_request request_response most = ltb 0 most

abbrev pub captures_response : AuditLevel → (max_response_body_bytes : ℕ) → Bool
captures_response no_audit most = false
captures_response metadata most = false
captures_response request_level most = false
captures_response request_response most = ltb 0 most

-- What the path parser reads of a resource's descriptor; `is_namespaced` is that of its scope.
pub record ResourceApiDescriptor : Type 0 where
  pub group : String
  pub version : String
  pub plural : String
  pub is_namespaced : Bool

-- The first argument is what `all_resource_apis` answers.
abbrev pub resources_for :
    List ResourceApiDescriptor → (group version : String) → List ResourceApiDescriptor
resources_for all group version =
    filter (λ resource. resource.group == group && resource.version == version) all

abbrev pub registry_group : (api_group : String) → String
registry_group api_group = if is_blank api_group then "core" else api_group

pub record ParsedResourcePath : Type 0 where
  pub resource : String
  pub resource_name : Option String
  pub namespace : Option String
  pub name_present : Bool

-- `<[T]>::join`.
abbrev pub join : String → List String → String
join separator [] = ""
join separator (x ∷ []) = x
join separator (x ∷ y ∷ ys) = String.◌++◌ x (String.◌++◌ separator (join separator (y ∷ ys)))

abbrev find_plural : List ResourceApiDescriptor → String → Option ResourceApiDescriptor
find_plural descriptors text = find (λ entry. entry.plural == text) descriptors

-- The path from the resource on: its name and what of it is meant.
abbrev with_subresource : String → List String → String
with_subresource resource [] = resource
with_subresource resource (name ∷ []) = resource
with_subresource resource (name ∷ sub ∷ more) =
    String.◌++◌ resource (String.◌++◌ "/" (join "/" (sub ∷ more)))

abbrev pub parsed_path :
    Option String → ResourceApiDescriptor → (resource : String) → List String → ParsedResourcePath
parsed_path namespace descriptor resource after_resource = record {
  resource = with_subresource resource after_resource;
  resource_name = first after_resource;
  namespace = if descriptor.is_namespaced then namespace else none;
  name_present = is_some (first after_resource);
}

abbrev parse_from :
    List ResourceApiDescriptor → Option String → List String → Option ParsedResourcePath
parse_from descriptors namespace [] = none
parse_from descriptors namespace (resource ∷ after_resource) =
    Option.map (λ descriptor. parsed_path namespace descriptor resource after_resource)
      (find_plural descriptors resource)

abbrev pub parse_in_namespace :
    List ResourceApiDescriptor
    → (namespace resource : String) → List String
    → Option ParsedResourcePath
parse_in_namespace descriptors namespace resource more = elim (find_plural descriptors resource) [
  | none ↦ parse_from descriptors none ("namespaces" ∷ namespace ∷ resource ∷ more)
  | some descriptor ↦
      parse_from descriptors (if descriptor.is_namespaced then some namespace else none)
        (resource ∷ more)
]

unfoldable pub parse_segments : List ResourceApiDescriptor → List String → Option ParsedResourcePath
parse_segments descriptors [] = none
parse_segments descriptors (a ∷ []) = parse_from descriptors none (a ∷ [])
parse_segments descriptors (a ∷ b ∷ []) = parse_from descriptors none (a ∷ b ∷ [])
parse_segments descriptors (a ∷ b ∷ c ∷ more) =
    if a == "namespaces"
    then parse_in_namespace descriptors b c more
    else parse_from descriptors none (a ∷ b ∷ c ∷ more)

unfoldable pub parse_resource_path :
    List ResourceApiDescriptor
    → (api_group version : String) → List String
    → Option ParsedResourcePath
unfolding parse_segments
parse_resource_path all api_group version path =
    parse_segments (resources_for all (registry_group api_group) version) path

-- What the middleware asks the policy about a request for a resource.
unfoldable pub policy_input :
    (verb api_group : String) → UserInfo → ParsedResourcePath → PolicyInput
policy_input verb api_group user parsed = record {
  verb = verb;
  user = user;
  namespace = parsed.namespace;
  api_group = api_group;
  resource = parsed.resource;
  non_resource_url = none;
}
