-- ===== src/Apiserver/Rbac/Accounts.antt =====
-- The user names of service accounts: `UserInfo::service_account` of
-- tugboat-apiserver/src/auth/user_info.rs makes them, and rbac_authorizer.rs takes them apart.
use Prim.Native.String
use text.Mathlib.TextLemmas.{nil-append, cons-append}
use tugboat.Base.{
  ◌≡◌, refl, ap, ◌∙◌, ◌↔◌, String, true, false, ◌&&◌, sym, Option, some, arith, eq_iff, ◌==◌,
}
use text.Mathlib.TextPositions.{eq_refl}
use mathlib.Core.Option
use tugboat.Base.Text.{split_once}
use tugboat.Base.Affixes.{has_code, strip_prefix-append, split_once-append}
use tugboat.Manifests.Meta.{is_named, is_named-eq}
use tugboat.Manifests.Authorization.{Subject}
use tugboat.Apiserver.Rbac.{
  parse_service_account_username, service_account_info, service_account_username,
  subject_matches_user, service_account_subject_matches_user,
}

split_once-colon : (name : String) → split_once (String.◌++◌ ":" name) b':' ≡ some ("", name)
unfolding split_once
split_once-colon name =
    let same : String.◌++◌ ":" name ≡ String.◌∷◌ ":" name =
      cons-append ":" "" name ∙ ap (λ t. String.◌∷◌ ":" t) (nil-append name) in
    rw same (ground arith)

parse-service_account_username :
    (namespace name : String)
    → has_code b':' namespace ≡ false
    → parse_service_account_username (service_account_username namespace name)
      ≡ some (namespace, name)
unfolding parse_service_account_username service_account_username Option.bind split_once
parse-service_account_username namespace name h =
    let rest = String.◌++◌ ":" name in
    rw (strip_prefix-append "system:serviceaccount:" (String.◌++◌ namespace rest))
      (split_once-append b':' namespace h name rest (split_once-colon name))

-- A subject of the kind "ServiceAccount" is the user that a service account's token stands for
-- exactly when it names the account's namespace and name, for a namespace without a colon.
pub subject_matches_user-service_account_info :
    (subject : Subject) (namespace name : String) (uid : Option String)
    → has_code b':' namespace ≡ false
    → subject.kind ≡ "ServiceAccount"
    → (subject_matches_user subject (service_account_info namespace name uid) ≡ true)
      ↔ ((subject.namespace ≡ some namespace) × (subject.name ≡ name))
unfolding subject_matches_user service_account_subject_matches_user service_account_info
subject_matches_user-service_account_info subject namespace name uid h k =
    let parsed = parse-service_account_username namespace name h in
    let as_account : subject_matches_user subject (service_account_info namespace name uid)
        ≡ (is_named subject.namespace namespace && subject.name == name) =
      rw (k, parsed) refl in
    (
      λ e.
          let both : (is_named subject.namespace namespace && subject.name == name) ≡ true =
            sym as_account ∙ e in
          let a : is_named subject.namespace namespace ≡ true = ground arith in
          let b : (subject.name == name) ≡ true = ground arith in
          (is_named-eq subject.namespace namespace a, (eq_iff subject.name name).0 b),
      λ p. as_account ∙ rw (p.0, p.1, eq_refl namespace, eq_refl name),
    )
