-- ===== src/Scheduler/Selectors/Meaning.antt =====
-- What a selector of tugboat-scheduler/src/plugins/selectors.rs asks of labels.
use tugboat.Base.{
  String, ◌≡◌, refl, ◌≢◌, ◌↔◌, inl, inr, Bool, true, false, not, Option, none, some, List, [], ◌∷◌,
  Memᴰ, any, any_of_mem, mem_of_any, all_at, all_of_each, not_all, find-some, find-some_of_mem, ap,
  or_false, not-true, first, ◌==◌, eq_iff, subst, Bool-cases, Option-cases, arith,
}
use text.Mathlib.TextPositions.{eq_refl}
use tugboat.Base.Int.{ℤ, ltb_ℤ, ◌<ℤ◌}
use tugboat.Base.Text.{parse_i64}
use mathlib.Core.List.Memᴰ
use tugboat.Base.Dict.{Dict, get}
use tugboat.Manifests.Labels.{NodeSelector, NodeSelectorRequirement, NodeSelectorTerm}
use tugboat.Scheduler.Selectors.{
  contains, compare_i64, compare_parsed, node_operator_matches, node_selector_matches,
  node_selector_term_matches, node_selector_requirement_matches, term_requirements,
  all_requirements, first_unsatisfied_node_selector_key,
}

-- When labels meet a requirement, by its operator. "NotIn" and "DoesNotExist" hold without the label;
-- "Gt" and "Lt" compare the label with the first value, where both are numbers.
pub data Meets (r : NodeSelectorRequirement) (labels : Dict String) : Type 0 where
  one_of :
      (v : String)
      → r.operator ≡ "In"
      → get r.key labels ≡ some v
      → Memᴰ v r.values
      → Meets r labels
  none_of :
      r.operator ≡ "NotIn"
      → ((v : String) → get r.key labels ≡ some v → ¬ Memᴰ v r.values)
      → Meets r labels
  present : (v : String) → r.operator ≡ "Exists" → get r.key labels ≡ some v → Meets r labels
  missing : r.operator ≡ "DoesNotExist" → get r.key labels ≡ none → Meets r labels
  above :
      (v first : String) (more : List String) (a b : ℤ)
      → r.operator ≡ "Gt"
      → get r.key labels ≡ some v
      → r.values ≡ first ∷ more
      → parse_i64 v ≡ some a
      → parse_i64 first ≡ some b
      → b <ℤ a
      → Meets r labels
  below :
      (v first : String) (more : List String) (a b : ℤ)
      → r.operator ≡ "Lt"
      → get r.key labels ≡ some v
      → r.values ≡ first ∷ more
      → parse_i64 v ≡ some a
      → parse_i64 first ≡ some b
      → a <ℤ b
      → Meets r labels

-- One of the terms has all its expressions and all its field expressions met.
abbrev pub Satisfies : NodeSelector → Dict String → Type 0
Satisfies selector labels =
    (term : NodeSelectorTerm) × Memᴰ term selector.node_selector_terms
    × ((r : NodeSelectorRequirement) → Memᴰ r term.match_expressions → Meets r labels)
    × ((r : NodeSelectorRequirement) → Memᴰ r term.match_fields → Meets r labels)

pub contains-mem : (values : List String) (v : String) → contains values v ≡ true → Memᴰ v values
contains-mem values v h =
    let (x, m, e) = mem_of_any (λ item. item == v) values h in
    subst (λ y. Memᴰ y values) ((eq_iff x v).0 e) m

pub mem-contains : (values : List String) (v : String) → Memᴰ v values → contains values v ≡ true
mem-contains values v m = any_of_mem (λ item. item == v) values m (eq_refl v)

-- Numbers that two texts stand for compare like this.
compared :
    (value first : Option String) (f : ℤ → ℤ → Bool)
    → compare_i64 value first f ≡ true
    → (v : String) × (t : String) × (a : ℤ) × (b : ℤ) × (value ≡ some v)
      × (first ≡ some t)
      × (parse_i64 v ≡ some a)
      × (parse_i64 t ≡ some b)
      × (f a b ≡ true)
unfolding compare_i64 compare_parsed
compared none first f h = absurd (cc)
compared (some v) none f h = absurd (cc)
compared (some v) (some t) f h = elim (Option-cases (parse_i64 v)) [
  | inl e ↦ absurd (let k = rw (e, compare_i64, compare_parsed) at h in cc)
  | inr (a, e) ↦ elim (Option-cases (parse_i64 t)) [
    | inl g ↦ absurd (let k = rw (e, g, compare_i64, compare_parsed) at h in cc)
    | inr (b, g) ↦ (v, t, a, b, refl, refl, e, g, rw (e, g, compare_i64, compare_parsed) at h)
  ]
]

compares :
    (v t : String) (a b : ℤ) (f : ℤ → ℤ → Bool)
    → parse_i64 v ≡ some a
    → parse_i64 t ≡ some b
    → f a b ≡ true
    → compare_i64 (some v) (some t) f ≡ true
unfolding compare_i64 compare_parsed
compares v t a b f e g h = rw (e, g, compare_i64, compare_parsed) h

first-some :
    (xs : List String) {x : String} → first xs ≡ some x → (more : List String) × (xs ≡ x ∷ more)
first-some [] h = absurd (cc)
first-some (y ∷ ys) h = (ys, cc)

module _ (labels : Dict String) (r : NodeSelectorRequirement) where
  matches→Meets : node_selector_requirement_matches r labels ≡ true → Meets r labels
  unfolding node_operator_matches
  matches→Meets h = elim (Bool-cases (r.operator == "In")) [
    | inl e ↦ elim (Option-cases (get r.key labels)) [
      | inl f ↦ absurd (let k = rw (e, f, node_operator_matches) at h in cc)
      | inr (v, f) ↦
          one_of v ((eq_iff r.operator "In").0 e) f
            (contains-mem r.values v (rw (e, f, node_operator_matches) at h))
    ]
    | inr e1 ↦ elim (Bool-cases (r.operator == "NotIn")) [
      | inl e ↦ none_of ((eq_iff r.operator "NotIn").0 e) (λ v f m.
          let k = rw (e1, e, f, mem-contains r.values v m, node_operator_matches) at h in cc)
      | inr e2 ↦ elim (Bool-cases (r.operator == "Exists")) [
        | inl e ↦ elim (Option-cases (get r.key labels)) [
          | inl f ↦ absurd (let k = rw (e1, e2, e, f, node_operator_matches) at h in cc)
          | inr (v, f) ↦ present v ((eq_iff r.operator "Exists").0 e) f
        ]
        | inr e3 ↦ elim (Bool-cases (r.operator == "DoesNotExist")) [
          | inl e ↦ elim (Option-cases (get r.key labels)) [
            | inl f ↦ missing ((eq_iff r.operator "DoesNotExist").0 e) f
            | inr (v, f) ↦ absurd (let k = rw (e1, e2, e3, e, f, node_operator_matches) at h in cc)
          ]
          | inr e4 ↦ elim (Bool-cases (r.operator == "Gt")) [
            | inl e ↦
                let (v, t, a, b, f, g, k, l, m) =
                  compared (get r.key labels) (first r.values) (λ x y. ltb_ℤ y x)
                    (rw (e1, e2, e3, e4, e, node_operator_matches) at h) in
                let (more, n) = first-some r.values g in
                above v t more a b ((eq_iff r.operator "Gt").0 e) f n k l (ground arith)
            | inr e5 ↦ elim (Bool-cases (r.operator == "Lt")) [
              | inl e ↦
                  let (v, t, a, b, f, g, k, l, m) =
                    compared (get r.key labels) (first r.values) (λ x y. ltb_ℤ x y)
                      (rw (e1, e2, e3, e4, e5, e, node_operator_matches) at h) in
                  let (more, n) = first-some r.values g in
                  below v t more a b ((eq_iff r.operator "Lt").0 e) f n k l (ground arith)
              | inr e6 ↦
                  absurd (let k = rw (e1, e2, e3, e4, e5, e6, node_operator_matches) at h in cc)
            ]
          ]
        ]
      ]
    ]
  ]

  Meets→matches : Meets r labels → node_selector_requirement_matches r labels ≡ true
  unfolding node_operator_matches
  Meets→matches (one_of v e f m) = rw (e, f, node_operator_matches) (mem-contains r.values v m)
  Meets→matches (none_of e h) = elim (Option-cases (get r.key labels)) [
    | inl f ↦ rw (e, f, node_operator_matches) refl
    | inr (v, f) ↦ elim (Bool-cases (contains r.values v)) [
      | inl k ↦ absurd (h v f (contains-mem r.values v k))
      | inr k ↦ rw (e, f, k, node_operator_matches) refl
    ]
  ]
  Meets→matches (present v e f) = rw (e, f, node_operator_matches) refl
  Meets→matches (missing e f) = rw (e, f, node_operator_matches) refl
  Meets→matches (above v t more a b e f g k l m) =
      rw (e, f, g, node_operator_matches) (compares v t a b (λ x y. ltb_ℤ y x) k l (ground arith))
  Meets→matches (below v t more a b e f g k l m) =
      rw (e, f, g, node_operator_matches) (compares v t a b (λ x y. ltb_ℤ x y) k l (ground arith))

module _ (labels : Dict String) where
  matches_term :
      (terms : List NodeSelectorTerm)
      → node_selector_matches (record { node_selector_terms = terms }) labels
        ≡ any (λ term. node_selector_term_matches term labels) terms
  unfolding node_selector_matches
  matches_term [] = refl
  matches_term (t ∷ ts) = refl

-- A node selector matches exactly when one of its terms has all its expressions and field
-- expressions met, where a relation says when labels meet a requirement; so a selector with no terms
-- matches no node.
pub node_selector_matches_iff :
    (selector : NodeSelector) (labels : Dict String)
    → (node_selector_matches selector labels ≡ true) ↔ Satisfies selector labels
unfolding node_selector_term_matches
node_selector_matches_iff selector labels = (to, from)
  where
    to : node_selector_matches selector labels ≡ true → Satisfies selector labels
    to h =
        let (term, m, k) =
          mem_of_any (λ term. node_selector_term_matches term labels) selector.node_selector_terms
            (rw (matches_term labels selector.node_selector_terms) at h) in
        let each : (r : NodeSelectorRequirement)
            → Memᴰ r (term_requirements term)
            → Meets r labels =
          λ r n. matches→Meets labels r (
            all_at (λ q. node_selector_requirement_matches q labels) (term_requirements term) n
              k) in
        (
          term,
          m,
          λ r n. each r (Memᴰ.append_left term.match_fields n),
          λ r n. each r (Memᴰ.append_right term.match_expressions n),
        )

    from : Satisfies selector labels → node_selector_matches selector labels ≡ true
    from (term, m, expressions, fields) = rw (matches_term labels selector.node_selector_terms) (
        any_of_mem (λ t. node_selector_term_matches t labels) selector.node_selector_terms m
          (all_of_each (λ q. node_selector_requirement_matches q labels) (term_requirements term)
            (λ r n. elim (Memᴰ.append_cases term.match_expressions n) [
              | inl i ↦ Meets→matches labels r (expressions r i)
              | inr i ↦ Meets→matches labels r (fields r i)
            ])))

unsatisfied-mem :
    (terms : List NodeSelectorTerm) (labels : Dict String)
    → any (λ term. node_selector_term_matches term labels) terms ≡ false
    → terms ≢ []
    → (r : NodeSelectorRequirement) × Memᴰ r (all_requirements terms)
      × (node_selector_requirement_matches r labels ≡ false)
unfolding all_requirements node_selector_term_matches
unsatisfied-mem [] labels h k = absurd (k refl)
unsatisfied-mem (t ∷ ts) labels h k =
    let (r, m, e) =
      not_all (λ q. node_selector_requirement_matches q labels) (term_requirements t)
        (or_false _ _ h) in
    (r, Memᴰ.append_left (all_requirements ts) m, e)

-- When a selector with at least one term does not match, the key that a rejection names is that
-- of a requirement of one of its terms which the labels do not satisfy.
pub first_unsatisfied_node_selector_key-names :
    (selector : NodeSelector) (labels : Dict String)
    → node_selector_matches selector labels ≡ false
    → selector.node_selector_terms ≢ []
    → (r : NodeSelectorRequirement) × Memᴰ r (all_requirements selector.node_selector_terms)
      × (node_selector_requirement_matches r labels ≡ false)
      × (first_unsatisfied_node_selector_key selector labels ≡ some r.key)
unfolding first_unsatisfied_node_selector_key
first_unsatisfied_node_selector_key-names selector labels h k =
    let terms = selector.node_selector_terms in
    let unmet : NodeSelectorRequirement → Bool =
      λ r. not (node_selector_requirement_matches r labels) in
    let (r, m, e) = unsatisfied-mem terms labels (rw (matches_term labels terms) at h) k in
    let (q, found) = find-some_of_mem unmet (all_requirements terms) m (ap not e) in
    let (n, u) = find-some unmet (all_requirements terms) found in
    (q, n, not-true _ u, rw (h, found))
