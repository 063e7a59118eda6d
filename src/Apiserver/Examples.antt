-- ===== src/Apiserver/Examples.antt =====
-- The theorems on authorization at a store with one cluster role binding.
mod Audit
mod Handlers
use tugboat.Base.{◌≡◌, ◌↔◌, refl, true, none, some, [], ◌∷◌}
use tugboat.Base.Results.{ok}
use tugboat.Manifests.Authorization.{PolicyRule, Subject, ClusterRoleBinding}
use tugboat.Apiserver.Rbac.{
  x509, AuthorizationRequest, PolicyStore, is_superuser, subject_matches_user, rule_matches_request,
  resolve_role_ref, authorize_with_store, service_account_info,
}
use tugboat.Apiserver.Rbac.Accounts.{subject_matches_user-service_account_info}
use tugboat.Apiserver.Rbac.Grants.{IsGranted, authorize_with_store-IsGranted}

abbrev viewer : PolicyRule
viewer = record {
  api_groups = "core" ∷ [];
  resources = "*" ∷ [];
  resource_names = [];
  verbs = "get" ∷ "list" ∷ [];
}

abbrev viewers : ClusterRoleBinding
viewers = record {
  subjects = record { kind = "Group"; name = "operators"; namespace = none } ∷ [];
  role_ref = some (record { api_group = "authorization"; kind = "ClusterRole"; name = "viewer" });
}

abbrev policy : PolicyStore
policy = record {
  cluster_role_bindings = ok (viewers ∷ []);
  role_bindings = λ namespace. ok [];
  role = λ namespace name. ok none;
  cluster_role = λ name. ok (some (record { rules = viewer ∷ [] }));
}

abbrev get_ship : AuthorizationRequest
get_ship = record {
  user = record { username = "ann"; uid = none; groups = "operators" ∷ []; identity = x509 };
  verb = "get";
  api_group = "core";
  resource = "ships";
  resource_name = some "web";
  namespace = some "default";
}

authorize_with_store-IsGranted_example : IsGranted policy get_ship
unfolding authorize_with_store is_superuser subject_matches_user rule_matches_request
    resolve_role_ref
authorize_with_store-IsGranted_example = authorize_with_store-IsGranted policy get_ship refl

abbrev builder : Subject
builder = record { kind = "ServiceAccount"; name = "builder"; namespace = some "ci" }

subject_matches_user-service_account_info_example :
    (subject_matches_user builder (service_account_info "ci" "builder" none) ≡ true)
    ↔ ((builder.namespace ≡ some "ci") × (builder.name ≡ "builder"))
subject_matches_user-service_account_info_example =
    subject_matches_user-service_account_info builder "ci" "builder" none refl refl
