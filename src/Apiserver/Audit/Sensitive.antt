-- ===== src/Apiserver/Audit/Sensitive.antt =====
-- Bodies of requests for secrets and tokens stay out of the audit log.
use Prim.Native.String
use mathlib.Core.Option
use text.Mathlib.TextLemmas.{nil-append, cons-append}
use tugboat.Base.{
  ℕ, min, ◌≡◌, refl, ap, ◌∙◌, ◌⊎◌, inl, inr, String, Bool, true, false, none, some, List, [], ◌∷◌,
  ◌++◌, Memᴰ, arith, find, Bool-cases, if◌then◌else◌,
}
use tugboat.Base.Lists.{each_cons}
use tugboat.Base.Text.{split_once}
use tugboat.Base.Affixes.{split_once-append}
use tugboat.Apiserver.Rbac.{UserInfo}
use tugboat.Apiserver.Audit.{
  AuditLevel, no_audit, metadata, request_level, request_response, AuditRule, PolicyInput,
  strip_subresource, is_sensitive_audit_resource, clamp_sensitive_level, without_bodies,
  rule_matches, select_level, captures_request, captures_response, ResourceApiDescriptor,
  ParsedResourcePath, parsed_path, join, with_subresource, find_plural, parse_in_namespace,
  parse_segments, resources_for, registry_group, parse_resource_path, policy_input,
}

-- How much a level records.
abbrev pub rank : AuditLevel → ℕ
rank no_audit = 0
rank metadata = 1
rank request_level = 2
rank request_response = 3

-- The level of the first rule that matches, cut to metadata; without such a rule there is no audit.
pub data IsCutLevel (rules : List AuditRule) (request : PolicyInput) (level : AuditLevel)
    : Type 0 where
  unmatched :
      ((rule : AuditRule) → Memᴰ rule rules → rule_matches rule request ≡ false)
      → level ≡ no_audit
      → IsCutLevel rules request level
  first_match :
      (before : List AuditRule) (rule : AuditRule) (after : List AuditRule)
      → rules ≡ before ++ rule ∷ after
      → ((earlier : AuditRule) → Memᴰ earlier before → rule_matches earlier request ≡ false)
      → rule_matches rule request ≡ true
      → rank level ≡ min (rank rule.level) 1
      → IsCutLevel rules request level

-- The rest of a path that gives out credentials: a secret or a part of one, or a token of a service
-- account.
pub data IsCredential (resource : String) (more : List String) : Type 0 where
  secret : resource ≡ "secrets" → IsCredential resource more
  token :
      (name : String)
      → resource ≡ "serviceaccounts"
      → more ≡ name ∷ "token" ∷ []
      → IsCredential resource more

module _ {ℓ} {A : Type ℓ} (p : A → Bool) where
  -- The first entry that passes, with those before it.
  find_cases :
      (xs : List A)
      → (((a : A) → Memᴰ a xs → p a ≡ false) × (find p xs ≡ none))
        ⊎ ((before : List A) × (x : A) × (after : List A) × (xs ≡ before ++ x ∷ after)
            × ((a : A) → Memᴰ a before → p a ≡ false)
            × (p x ≡ true)
            × (find p xs ≡ some x))
  find_cases [] = inl (λ a m. elim m [ ], refl)
  find_cases (x ∷ xs) = elim (Bool-cases (p x)) [
    | inl e ↦ inr ([], x, xs, refl, λ a m. elim m [ ], e, rw e refl)
    | inr e ↦ elim (find_cases xs) [
      | inl (h, k) ↦ inl (each_cons (λ a. p a ≡ false) xs e h, rw e k)
      | inr (before, y, after, same, h, good, k) ↦ inr (
        x ∷ before,
        y,
        after,
        ap (λ t. x ∷ t) same,
        each_cons (λ a. p a ≡ false) before e h,
        good,
        rw e k,
      )
    ]
  ]

split_once-slash : (t : String) → split_once (String.◌++◌ "/" t) b'/' ≡ some ("", t)
unfolding split_once
split_once-slash t =
    let same : String.◌++◌ "/" t ≡ String.◌∷◌ "/" t =
      cons-append "/" "" t ∙ ap (λ s. String.◌∷◌ "/" s) (nil-append t) in
    rw same (ground arith)

secret-is_sensitive :
    (more : List String) → is_sensitive_audit_resource (with_subresource "secrets" more) ≡ true
unfolding is_sensitive_audit_resource strip_subresource split_once
secret-is_sensitive [] = refl
secret-is_sensitive (name ∷ []) = refl
secret-is_sensitive (name ∷ sub ∷ more) =
    let t = join "/" (sub ∷ more) in
    let cut = split_once-append b'/' "secrets" refl t (String.◌++◌ "/" t) (split_once-slash t) in
    rw (is_sensitive_audit_resource, strip_subresource, cut) refl

IsCredential-is_sensitive :
    (resource : String) (more : List String)
    → IsCredential resource more
    → is_sensitive_audit_resource (with_subresource resource more) ≡ true
unfolding is_sensitive_audit_resource strip_subresource split_once
IsCredential-is_sensitive resource more (secret e) = rw e (secret-is_sensitive more)
IsCredential-is_sensitive resource more (token name e f) = rw (e, f) refl

rank-without_bodies : (level : AuditLevel) → rank (without_bodies level) ≡ min (rank level) 1
rank-without_bodies no_audit = refl
rank-without_bodies metadata = refl
rank-without_bodies request_level = refl
rank-without_bodies request_response = refl

no_bodies :
    (level : AuditLevel) (most : ℕ)
    → (captures_request (without_bodies level) most ≡ false)
      × (captures_response (without_bodies level) most ≡ false)
no_bodies no_audit most = (refl, refl)
no_bodies metadata most = (refl, refl)
no_bodies request_level most = (refl, refl)
no_bodies request_response most = (refl, refl)

-- What the policy decides for a sensitive resource.
select_level-IsCutLevel :
    (rules : List AuditRule) (request : PolicyInput)
    → is_sensitive_audit_resource request.resource ≡ true
    → let level = select_level rules request in
      IsCutLevel rules request level
      × ((most : ℕ)
          → (captures_request level most ≡ false) × (captures_response level most ≡ false))
unfolding select_level clamp_sensitive_level
select_level-IsCutLevel rules request h =
    elim (find_cases (λ rule. rule_matches rule request) rules) [
      | inl (none_matches, e) ↦
          let level : select_level rules request ≡ no_audit = rw (select_level, e, h) refl in
          (unmatched none_matches level, λ most. rw level (no_bodies no_audit most))
      | inr (before, rule, after, same, earlier, good, e) ↦
          let level : select_level rules request ≡ without_bodies rule.level =
            rw (select_level, e, h) refl in
          (
            first_match before rule after same earlier good
                (rw level (rank-without_bodies rule.level)),
            λ most. rw level (no_bodies rule.level most),
          )
    ]

parse_segments-with_resource :
    (descriptors : List ResourceApiDescriptor) (descriptor : ResourceApiDescriptor)
    (namespace resource : String) (more : List String)
    → find_plural descriptors resource ≡ some descriptor
    → (parsed : ParsedResourcePath) × (parse_segments descriptors
          ("namespaces" ∷ namespace ∷ resource ∷ more)
        ≡ some parsed)
      × (parsed.resource ≡ with_subresource resource more)
unfolding parse_segments
parse_segments-with_resource descriptors descriptor namespace resource more e =
    let place = if descriptor.is_namespaced then some namespace else none in
    let here : parse_segments descriptors ("namespaces" ∷ namespace ∷ resource ∷ more)
        ≡ parse_in_namespace descriptors namespace resource more =
      refl in
    let rest = ap (Option.map (λ d. parsed_path place d resource more)) e in
    (parsed_path place descriptor resource more, here ∙ rw (e, parse_in_namespace) rest, refl)

-- Whatever the operator's rules say, of a request for a secret of a namespace, for a part of one or
-- for a token of a service account neither body is recorded: the path is taken apart when the
-- registry knows the resource in the request's group and version, and the level is that of the
-- first rule that matches, cut to metadata, or no audit when no rule does.
pub select_level-keeps_credentials_out :
    (rules : List AuditRule) (all : List ResourceApiDescriptor) (descriptor : ResourceApiDescriptor)
    (api_group version namespace resource : String) (more : List String) (verb : String)
    (user : UserInfo)
    → find_plural (resources_for all (registry_group api_group) version) resource ≡ some descriptor
    → IsCredential resource more
    → (parsed : ParsedResourcePath) × (parse_resource_path all api_group version
          ("namespaces" ∷ namespace ∷ resource ∷ more)
        ≡ some parsed)
      × (let request = policy_input verb api_group user parsed in
          let level = select_level rules request in
          IsCutLevel rules request level
          × ((most : ℕ)
              → (captures_request level most ≡ false) × (captures_response level most ≡ false)))
unfolding policy_input parse_resource_path
select_level-keeps_credentials_out rules all d group version namespace resource more verb user e h =
    let descriptors = resources_for all (registry_group group) version in
    let (parsed, same, named) =
      parse_segments-with_resource descriptors d namespace resource more e in
    (
      parsed,
      same,
      select_level-IsCutLevel rules (policy_input verb group user parsed)
          (rw named (IsCredential-is_sensitive resource more h)),
    )
