-- ===== src/Apiserver/Examples/Audit.antt =====
-- A policy that asks for all bodies, and a path to a secret.
use tugboat.Base.{ℕ, ◌≡◌, refl, String, true, false, none, some, List, [], ◌∷◌}
use tugboat.Base.Text.{split_once}
use tugboat.Apiserver.Rbac.{UserInfo, x509}
use tugboat.Apiserver.Audit.{
  no_audit, metadata, request_response, AuditRule, ResourceApiDescriptor, ParsedResourcePath,
  captures_request, captures_response, parse_resource_path, policy_input, select_level,
}
use tugboat.Apiserver.Audit.Sensitive.{IsCutLevel, secret, select_level-keeps_credentials_out}

abbrev operator : UserInfo
operator = record { username = "olga"; uid = none; groups = "operators" ∷ []; identity = x509 }

abbrev any_rule : AuditRule
any_rule = record {
  level = request_response;
  verbs = [];
  users = [];
  user_groups = [];
  namespaces = [];
  resources = [];
  non_resource_urls = [];
}

-- Reads of what belongs to "quiet" are not audited; of all else both bodies are asked for.
abbrev rules : List AuditRule
rules =
    record any_rule { level = no_audit; verbs = "get" ∷ []; namespaces = "quiet" ∷ [] }
    ∷ any_rule
    ∷ []

abbrev secrets : ResourceApiDescriptor
secrets = record { group = "core"; version = "v1"; plural = "secrets"; is_namespaced = true }

abbrev descriptors : List ResourceApiDescriptor
descriptors =
    record { group = "apps"; version = "v1"; plural = "secrets"; is_namespaced = false }
    ∷ record secrets { plural = "ships" }
    ∷ secrets
    ∷ []

abbrev path : (namespace : String) → List String
path namespace = "namespaces" ∷ namespace ∷ "secrets" ∷ "db" ∷ "data" ∷ []

select_level-keeps_credentials_out_example :
    (parsed : ParsedResourcePath) × (parse_resource_path descriptors "" "v1" (path "default")
      ≡ some parsed)
    × (let request = policy_input "update" "" operator parsed in
        let level = select_level rules request in
        IsCutLevel rules request level
        × ((most : ℕ)
            → (captures_request level most ≡ false) × (captures_response level most ≡ false)))
select_level-keeps_credentials_out_example =
    select_level-keeps_credentials_out rules descriptors secrets "" "v1" "default" "secrets"
      ("db" ∷ "data" ∷ []) "update" operator refl (secret refl)

abbrev parsed_secret : (namespace : String) → ParsedResourcePath
parsed_secret namespace = record {
  resource = "secrets/data";
  resource_name = some "db";
  namespace = some namespace;
  name_present = true;
}

parses_a_path :
    parse_resource_path descriptors "" "v1" (path "default") ≡ some (parsed_secret "default")
unfolding parse_resource_path
parses_a_path = refl

level_tests :
    (select_level rules (policy_input "update" "" operator (parsed_secret "default")) ≡ metadata)
    × (select_level rules (policy_input "get" "" operator (parsed_secret "quiet")) ≡ no_audit)
    × (select_level rules
          (policy_input "get" "" operator (record (parsed_secret "default") { resource = "ships" }))
        ≡ request_response)
unfolding select_level policy_input split_once
level_tests = (refl, refl, refl)
