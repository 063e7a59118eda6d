-- ===== src/Apiserver/Rbac/Grants.antt =====
-- What an allowed request of tugboat-apiserver/src/auth/rbac_authorizer.rs rests on.
use tugboat.Base.{
  ◌≡◌, refl, sym, ap, subst, ◌∙◌, ◌⊎◌, inl, inr, String, true, Option, none, some, List, [], ◌∷◌,
  ◌++◌, map, Memᴰ, mem_of_any, arith, Bool-cases, Option-cases, eq_iff, ◌==◌, ◌||◌,
}
use mathlib.Core.List.Memᴰ
use tugboat.Base.Results.{Result, ok, err, >>=-eq-ok}
use tugboat.Manifests.Meta.{is_named, is_named-eq}
use tugboat.Manifests.Authorization.{PolicyRule, Subject, RoleRef, ClusterRoleBinding, RoleBinding}
use tugboat.Apiserver.Rbac.{
  UserInfo, AuthorizationRequest, AuthorizationDecision, allowed, PolicyStore, is_service_account,
  has_value, is_superuser, parse_service_account_username, service_account_subject_matches_user,
  subject_matches_user, subjects_match_user, matches_value, matches_resource_name,
  rule_matches_request, resolve_role_ref, binding_rules, cluster_role_rules, role_binding_rules,
  namespaced_rules, decide, authorize_impl_with_store, decision_of, authorize_with_store,
}

-- The values list the text, or "*".
abbrev pub Covers : List String → String → Type 0
Covers values requested = Memᴰ "*" values ⊎ Memᴰ requested values

-- What a rule lets a request do.
abbrev pub Permits : PolicyRule → AuthorizationRequest → Type 0
Permits rule request =
    Covers rule.api_groups request.api_group
    × Covers rule.resources request.resource
    × Covers rule.verbs request.verb
    × ((rule.resource_names ≡ [])
        ⊎ ((name : String) × (request.resource_name ≡ some name) × Memᴰ name rule.resource_names))

-- When a subject of a binding is the user.
pub data Denotes (subject : Subject) (user : UserInfo) : Type 0 where
  by_name : subject.kind ≡ "User" → subject.name ≡ user.username → Denotes subject user
  by_group : subject.kind ≡ "Group" → Memᴰ subject.name user.groups → Denotes subject user
  by_account :
      subject.kind ≡ "ServiceAccount"
      → is_service_account user.identity ≡ true
      → (namespace : String)
      → parse_service_account_username user.username ≡ some (namespace, subject.name)
      → subject.namespace ≡ some namespace
      → Denotes subject user

-- A binding that names the user gives it a rule that permits the request.
abbrev pub Grants :
    PolicyStore → AuthorizationRequest → Option String → List Subject → Option RoleRef → Type 0
Grants store request namespace subjects role_ref =
    (subject : Subject) × Memᴰ subject subjects
    × Denotes subject request.user
    × (rules : List PolicyRule) × (resolve_role_ref store role_ref namespace ≡ ok rules)
    × (rule : PolicyRule) × Memᴰ rule rules
    × Permits rule request

pub data IsGranted (store : PolicyStore) (request : AuthorizationRequest) : Type 0 where
  superuser : Memᴰ "system:masters" request.user.groups → IsGranted store request
  cluster_wide :
      (bindings : List ClusterRoleBinding)
      → store.cluster_role_bindings ≡ ok bindings
      → (binding : ClusterRoleBinding) → Memᴰ binding bindings
      → Grants store request none binding.subjects binding.role_ref
      → IsGranted store request
  in_namespace :
      (namespace : String)
      → request.namespace ≡ some namespace
      → (bindings : List RoleBinding) → store.role_bindings namespace ≡ ok bindings
      → (binding : RoleBinding) → Memᴰ binding bindings
      → Grants store request (some namespace) binding.subjects binding.role_ref
      → IsGranted store request

mem-has_value :
    (values : List String) (text : String) → has_value values text ≡ true → Memᴰ text values
mem-has_value values text h =
    let (v, m, k) = mem_of_any (λ value. value == text) values h in
    subst (λ t. Memᴰ t values) ((eq_iff v text).0 k) m

value-Covers :
    (values : List String) (text : String) → matches_value values text ≡ true → Covers values text
unfolding matches_value
value-Covers values text h =
    let (v, m, k) = mem_of_any (λ value. value == "*" || value == text) values h in
    elim (Bool-cases (v == "*")) [
      | inl e ↦ inl (subst (λ t. Memᴰ t values) ((eq_iff v "*").0 e) m)
      | inr e ↦
          let same : (v == text) ≡ true = ground arith in
          inr (subst (λ t. Memᴰ t values) ((eq_iff v text).0 same) m)
    ]

resource_names-listed :
    (names : List String) (requested : Option String)
    → matches_resource_name names requested ≡ true
    → (names ≡ []) ⊎ ((name : String) × (requested ≡ some name) × Memᴰ name names)
unfolding matches_resource_name
resource_names-listed [] requested h = inl refl
resource_names-listed (n ∷ ns) none h = absurd (cc)
resource_names-listed (n ∷ ns) (some name) h = inr (name, refl, mem-has_value (n ∷ ns) name h)

rule-Permits :
    (rule : PolicyRule) (request : AuthorizationRequest)
    → rule_matches_request rule request ≡ true
    → Permits rule request
unfolding rule_matches_request matches_resource_name
rule-Permits rule request h = (
  value-Covers rule.api_groups request.api_group (ground arith),
  value-Covers rule.resources request.resource (ground arith),
  value-Covers rule.verbs request.verb (ground arith),
  resource_names-listed rule.resource_names request.resource_name (ground arith),
)

subject-Denotes :
    (subject : Subject) (user : UserInfo)
    → subject_matches_user subject user ≡ true
    → Denotes subject user
unfolding subject_matches_user service_account_subject_matches_user
subject-Denotes subject user h = elim (Bool-cases (subject.kind == "User")) [
  | inl e ↦
      by_name ((eq_iff subject.kind "User").0 e)
        ((eq_iff subject.name user.username).0 (ground arith))
  | inr e ↦ elim (Bool-cases (subject.kind == "Group")) [
    | inl f ↦
        by_group ((eq_iff subject.kind "Group").0 f)
          (mem-has_value user.groups subject.name (ground arith))
    | inr f ↦ elim (Option-cases (parse_service_account_username user.username)) [
      | inl g ↦ absurd (ground arith)
      | inr ((ns, name), g) ↦
          let kind : (subject.kind == "ServiceAccount") ≡ true = ground arith in
          let account : is_service_account user.identity ≡ true = ground arith in
          let named : is_named subject.namespace ns ≡ true = ground arith in
          let same : (subject.name == name) ≡ true = ground arith in
          by_account ((eq_iff subject.kind "ServiceAccount").0 kind) account ns
            (g ∙ ap (λ n. some (ns, n)) (sym ((eq_iff subject.name name).0 same)))
            (is_named-eq subject.namespace ns named)
    ]
  ]
]

module _ (store : PolicyStore) (user : UserInfo) (namespace : Option String) where
  -- A rule that the loop collects comes from a binding with a subject that is the user.
  binding_rules-mem :
      (bindings : List (List Subject × Option RoleRef)) (found : List PolicyRule)
      {rule : PolicyRule}
      → binding_rules store user namespace bindings ≡ ok found
      → Memᴰ rule found
      → (b : List Subject × Option RoleRef) × Memᴰ b bindings
        × (subjects_match_user b.0 user ≡ true)
        × (rules : List PolicyRule) × (resolve_role_ref store b.1 namespace ≡ ok rules)
        × Memᴰ rule rules
  unfolding binding_rules
  binding_rules-mem [] found {rule} h m =
      let e : [] ≡ found = cc in absurd (Memᴰ.not-nil (subst (Memᴰ rule) (sym e) m))
  binding_rules-mem ((subjects, role_ref) ∷ bindings) found {rule} h m =
      elim (Bool-cases (subjects_match_user subjects user)) [
        | inr e ↦
            let (b, n, u, rules, resolved, k) =
              binding_rules-mem bindings found (rw (e, binding_rules) at h) m in
            (b, Memᴰ.tail n, u, rules, resolved, k)
        | inl e ↦
            let (rules, resolved, h1) =
              >>=-eq-ok (resolve_role_ref store role_ref namespace) _
                (rw (e, binding_rules) at h) in
            let (more, others, h2) = >>=-eq-ok (binding_rules store user namespace bindings) _ h1 in
            let same : rules ++ more ≡ found = cc in
            elim (Memᴰ.append_cases rules (subst (Memᴰ rule) (sym same) m)) [
              | inl n ↦ ((subjects, role_ref), Memᴰ.head refl, e, rules, resolved, n)
              | inr n ↦
                  let (b, k, u, rs, r, i) = binding_rules-mem bindings more others n in
                  (b, Memᴰ.tail k, u, rs, r, i)
            ]
      ]

mem-map :
    {A B : Type 0} (f : A → B) (xs : List A) {b : B}
    → Memᴰ b (map f xs)
    → (a : A) × Memᴰ a xs × (b ≡ f a)
mem-map f [] m = elim m [ ]
mem-map f (x ∷ xs) (Memᴰ.head e) = (x, Memᴰ.head refl, e)
mem-map f (x ∷ xs) (Memᴰ.tail m) = let (a, n, e) = mem-map f xs m in (a, Memᴰ.tail n, e)

-- From what a binding gives, with the rule that permits the request.
grant-of :
    (store : PolicyStore) (request : AuthorizationRequest) (namespace : Option String)
    (b : List Subject × Option RoleRef) (rules : List PolicyRule) (rule : PolicyRule)
    → subjects_match_user b.0 request.user ≡ true
    → resolve_role_ref store b.1 namespace ≡ ok rules
    → Memᴰ rule rules
    → rule_matches_request rule request ≡ true
    → Grants store request namespace b.0 b.1
grant-of store request namespace b rules rule h resolved m k =
    let (subject, n, e) = mem_of_any (λ s. subject_matches_user s request.user) b.0 h in
    (
      subject,
      n,
      subject-Denotes subject request.user e,
      rules,
      resolved,
      rule,
      m,
      rule-Permits rule request k,
    )

module _ (store : PolicyStore) (request : AuthorizationRequest) (rule : PolicyRule)
    (k : rule_matches_request rule request ≡ true) where
  cluster-IsGranted :
      (rules : List PolicyRule)
      → cluster_role_rules store request.user ≡ ok rules
      → Memᴰ rule rules
      → IsGranted store request
  unfolding cluster_role_rules
  cluster-IsGranted rules h m =
      let (bindings, listed, h1) = >>=-eq-ok store.cluster_role_bindings _ h in
      let (b, n, u, rs, resolved, i) =
        binding_rules-mem store request.user none
          (map (λ (b : ClusterRoleBinding). (b.subjects, b.role_ref)) bindings) rules h1 m in
      let (binding, j, e) =
        mem-map (λ (b : ClusterRoleBinding). (b.subjects, b.role_ref)) bindings n in
      cluster_wide bindings listed binding j (
        subst (λ (c : List Subject × Option RoleRef). Grants store request none c.0 c.1) e
          (grant-of store request none b rs rule u resolved i k))

  namespaced-IsGranted :
      (namespace : Option String) (rules : List PolicyRule)
      → request.namespace ≡ namespace
      → namespaced_rules store request.user namespace ≡ ok rules
      → Memᴰ rule rules
      → IsGranted store request
  unfolding namespaced_rules role_binding_rules
  namespaced-IsGranted none rules e h m =
      let none_found : [] ≡ rules = cc in
      absurd (Memᴰ.not-nil (subst (Memᴰ rule) (sym none_found) m))
  namespaced-IsGranted (some ns) rules e h m =
      let (bindings, listed, h1) = >>=-eq-ok (store.role_bindings ns) _ h in
      let (b, n, u, rs, resolved, i) =
        binding_rules-mem store request.user (some ns)
          (map (λ (b : RoleBinding). (b.subjects, b.role_ref)) bindings) rules h1 m in
      let (binding, j, f) = mem-map (λ (b : RoleBinding). (b.subjects, b.role_ref)) bindings n in
      in_namespace ns e bindings listed binding j (
        subst (λ (c : List Subject × Option RoleRef). Grants store request (some ns) c.0 c.1) f
          (grant-of store request (some ns) b rs rule u resolved i k))

decided :
    (store : PolicyStore) (r : Result String AuthorizationDecision)
    → decision_of store r ≡ allowed
    → r ≡ ok allowed
decided store (ok decision) h = ap ok h
decided store (err error) h = absurd (cc)

decide-allowed :
    (store : PolicyStore) (request : AuthorizationRequest) (rules : List PolicyRule)
    → decide store request rules ≡ allowed
    → (rule : PolicyRule) × Memᴰ rule rules × (rule_matches_request rule request ≡ true)
decide-allowed store request rules h =
    mem_of_any (λ rule. rule_matches_request rule request) rules (ground arith)

-- A request is allowed only for a member of "system:masters", or by a rule that permits it, of the
-- role of a cluster role binding, or of a role binding in the request's own namespace, that has a
-- subject which is the user. So a policy that cannot be read allows nobody else anything.
pub authorize_with_store-IsGranted :
    (store : PolicyStore) (request : AuthorizationRequest)
    → authorize_with_store store request ≡ allowed
    → IsGranted store request
unfolding authorize_with_store authorize_impl_with_store is_superuser
authorize_with_store-IsGranted store request h = elim (Bool-cases (is_superuser request.user)) [
  | inl e ↦ superuser (mem-has_value request.user.groups "system:masters" e)
  | inr e ↦
      let k : authorize_impl_with_store store request ≡ ok allowed = decided store _ h in
      let (rules, found, k1) =
        >>=-eq-ok (cluster_role_rules store request.user) _
          (rw (e, authorize_impl_with_store) at k) in
      let (more, others, k2) =
        >>=-eq-ok (namespaced_rules store request.user request.namespace) _ k1 in
      let permitted : decide store request (rules ++ more) ≡ allowed = cc in
      let (rule, m, permits) = decide-allowed store request (rules ++ more) permitted in
      elim (Memᴰ.append_cases rules m) [
        | inl n ↦ cluster-IsGranted store request rule permits rules found n
        | inr n ↦
            namespaced-IsGranted store request rule permits request.namespace more refl others n
      ]
]
