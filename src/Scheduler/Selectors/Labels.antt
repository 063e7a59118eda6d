-- ===== src/Scheduler/Selectors/Labels.antt =====
-- What a label selector of tugboat-scheduler/src/plugins/selectors.rs asks of labels.
use tugboat.Base.{
  String, ◌≡◌, refl, inl, inr, true, Option, none, some, Memᴰ, all_at, all_of_each, all, ◌==◌,
  eq_iff, Bool-cases, Option-cases, arith,
}
use text.Mathlib.TextPositions.{eq_refl}
use tugboat.Base.Dict.{Dict, get}
use tugboat.Manifests.Labels.{LabelSelector, LabelSelectorRequirement}
use tugboat.Scheduler.Selectors.{
  contains, label_operator_matches, label_selector_requirement_matches, has_label,
  label_selector_matches,
}
use tugboat.Scheduler.Selectors.Meaning.{contains-mem, mem-contains}

-- When labels meet a requirement, by its operator. "NotIn" and "DoesNotExist" hold without the label.
pub data MeetsLabel (r : LabelSelectorRequirement) (labels : Dict String) : Type 0 where
  one_of :
      (v : String)
      → r.operator ≡ "In"
      → get r.key labels ≡ some v
      → Memᴰ v r.values
      → MeetsLabel r labels
  none_of :
      r.operator ≡ "NotIn"
      → ((v : String) → get r.key labels ≡ some v → ¬ Memᴰ v r.values)
      → MeetsLabel r labels
  present : (v : String) → r.operator ≡ "Exists" → get r.key labels ≡ some v → MeetsLabel r labels
  missing : r.operator ≡ "DoesNotExist" → get r.key labels ≡ none → MeetsLabel r labels

-- The labels have all that a selector lists, and meet all its expressions; no selector selects all.
abbrev pub Selects : Option LabelSelector → Dict String → Type 0
Selects wanted labels =
    (selector : LabelSelector)
    → wanted ≡ some selector
    → ((entry : String × String)
        → Memᴰ entry selector.match_labels
        → get entry.0 labels ≡ some entry.1)
      × ((r : LabelSelectorRequirement) → Memᴰ r selector.match_expressions → MeetsLabel r labels)

module _ (labels : Dict String) where
  matches→MeetsLabel :
      (r : LabelSelectorRequirement)
      → label_selector_requirement_matches r labels ≡ true
      → MeetsLabel r labels
  unfolding label_operator_matches
  matches→MeetsLabel r h = elim (Bool-cases (r.operator == "In")) [
    | inl e ↦ elim (Option-cases (get r.key labels)) [
      | inl f ↦ absurd (let k = rw (e, f, label_operator_matches) at h in cc)
      | inr (v, f) ↦
          one_of v ((eq_iff r.operator "In").0 e) f
            (contains-mem r.values v (rw (e, f, label_operator_matches) at h))
    ]
    | inr e1 ↦ elim (Bool-cases (r.operator == "NotIn")) [
      | inl e ↦ none_of ((eq_iff r.operator "NotIn").0 e) (λ v f m.
          let k = rw (e1, e, f, mem-contains r.values v m, label_operator_matches) at h in cc)
      | inr e2 ↦ elim (Bool-cases (r.operator == "Exists")) [
        | inl e ↦ elim (Option-cases (get r.key labels)) [
          | inl f ↦ absurd (let k = rw (e1, e2, e, f, label_operator_matches) at h in cc)
          | inr (v, f) ↦ present v ((eq_iff r.operator "Exists").0 e) f
        ]
        | inr e3 ↦ elim (Bool-cases (r.operator == "DoesNotExist")) [
          | inl e ↦ elim (Option-cases (get r.key labels)) [
            | inl f ↦ missing ((eq_iff r.operator "DoesNotExist").0 e) f
            | inr (v, f) ↦ absurd (let k = rw (e1, e2, e3, e, f, label_operator_matches) at h in cc)
          ]
          | inr e4 ↦ absurd (let k = rw (e1, e2, e3, e4, label_operator_matches) at h in cc)
        ]
      ]
    ]
  ]

  MeetsLabel→matches :
      (r : LabelSelectorRequirement)
      → MeetsLabel r labels
      → label_selector_requirement_matches r labels ≡ true
  unfolding label_operator_matches
  MeetsLabel→matches r (one_of v e f m) =
      rw (e, f, label_operator_matches) (mem-contains r.values v m)
  MeetsLabel→matches r (none_of e h) = elim (Option-cases (get r.key labels)) [
    | inl f ↦ rw (e, f, label_operator_matches) refl
    | inr (v, f) ↦ elim (Bool-cases (contains r.values v)) [
      | inl k ↦ absurd (h v f (contains-mem r.values v k))
      | inr k ↦ rw (e, f, k, label_operator_matches) refl
    ]
  ]
  MeetsLabel→matches r (present v e f) = rw (e, f, label_operator_matches) refl
  MeetsLabel→matches r (missing e f) = rw (e, f, label_operator_matches) refl

  has_label-get :
      (entry : String × String) → has_label labels entry ≡ true → get entry.0 labels ≡ some entry.1
  has_label-get entry h = elim (Option-cases (get entry.0 labels)) [
    | inl e ↦ absurd (let k = rw e at h in cc)
    | inr (v, e) ↦ rw (e, (eq_iff v entry.1).0 (rw e at h)) refl
  ]

  get-has_label :
      (entry : String × String) → get entry.0 labels ≡ some entry.1 → has_label labels entry ≡ true
  get-has_label entry e = rw e (eq_refl entry.1)

  pub matches→Selects :
      (wanted : Option LabelSelector)
      → label_selector_matches wanted labels ≡ true
      → Selects wanted labels
  unfolding label_selector_matches
  matches→Selects none h selector e = absurd (cc)
  matches→Selects (some chosen) h selector e =
      let same : chosen ≡ selector = cc in
      let first : all (has_label labels) chosen.match_labels ≡ true = ground arith in
      let second : all (λ r. label_selector_requirement_matches r labels) chosen.match_expressions
          ≡ true =
        ground arith in
      rw (← same) (
        λ entry m. has_label-get entry (all_at (has_label labels) chosen.match_labels m first),
        λ r m. matches→MeetsLabel r (
            all_at (λ q. label_selector_requirement_matches q labels) chosen.match_expressions m
              second),
      )

  pub Selects→matches :
      (wanted : Option LabelSelector)
      → Selects wanted labels
      → label_selector_matches wanted labels ≡ true
  unfolding label_selector_matches
  Selects→matches none p = refl
  Selects→matches (some chosen) p =
      let (listed, met) = p chosen refl in
      let a =
        all_of_each (has_label labels) chosen.match_labels
          (λ entry m. get-has_label entry (listed entry m)) in
      let b =
        all_of_each (λ r. label_selector_requirement_matches r labels) chosen.match_expressions
          (λ r m. MeetsLabel→matches r (met r m)) in
      rw (a, b, label_selector_matches) refl
