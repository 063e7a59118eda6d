-- ===== src/Scheduler/Selectors.antt =====
-- tugboat-scheduler/src/plugins/selectors.rs: when labels satisfy a selector.
pub mod Meaning
pub mod Labels
use tugboat.Base.{
  String, Bool, true, false, not, ◌&&◌, ◌||◌, Option, none, some, List, [], ◌++◌, ◌∷◌, any, all,
  find, first, is_empty, is_some, is_some_and, is_none_or, if◌then◌else◌, ◌==◌,
}
use tugboat.Base.Dict.{Dict, get}
use tugboat.Base.Int.{ℤ, ltb_ℤ}
use tugboat.Base.Text.{parse_i64}
use tugboat.Manifests.Labels.{
  LabelSelector, LabelSelectorRequirement, NodeSelector, NodeSelectorRequirement, NodeSelectorTerm,
  TopologySelectorTerm, TopologySelectorLabelRequirement,
}

-- `values.iter().any(|item| item == value)`.
abbrev pub contains : List String → String → Bool
contains values value = any (λ item. item == value) values

compare_parsed : Option ℤ → Option ℤ → (ℤ → ℤ → Bool) → Bool
compare_parsed none threshold f = false
compare_parsed (some value) none f = false
compare_parsed (some value) (some threshold) f = f value threshold

pub compare_i64 : Option String → Option String → (ℤ → ℤ → Bool) → Bool
unfolding compare_parsed
compare_i64 none threshold f = false
compare_i64 (some value) none f = false
compare_i64 (some value) (some threshold) f =
    compare_parsed (parse_i64 value) (parse_i64 threshold) f

-- The operator on the label's value: `match requirement.operator.as_str()`.
unfoldable pub node_operator_matches : String → Option String → List String → Bool
node_operator_matches operator value values =
    if operator == "In"
    then is_some_and value (contains values)
    else if operator == "NotIn"
    then is_none_or value (λ v. not (contains values v))
    else if operator == "Exists"
    then is_some value
    else if operator == "DoesNotExist"
    then not (is_some value)
    else if operator == "Gt"
    then compare_i64 value (first values) (λ a b. ltb_ℤ b a)
    else if operator == "Lt"
    then compare_i64 value (first values) (λ a b. ltb_ℤ a b)
    else false

abbrev pub node_selector_requirement_matches : NodeSelectorRequirement → Dict String → Bool
node_selector_requirement_matches requirement labels =
    node_operator_matches requirement.operator (get requirement.key labels) requirement.values

-- `match_expressions.iter().chain(match_fields.iter())`.
abbrev pub term_requirements : NodeSelectorTerm → List NodeSelectorRequirement
term_requirements term = term.match_expressions ++ term.match_fields

unfoldable pub node_selector_term_matches : NodeSelectorTerm → Dict String → Bool
node_selector_term_matches term labels =
    all (λ r. node_selector_requirement_matches r labels) (term_requirements term)

unfoldable pub node_selector_matches : NodeSelector → Dict String → Bool
node_selector_matches selector labels =
    not (is_empty selector.node_selector_terms)
    && any (λ term. node_selector_term_matches term labels) selector.node_selector_terms

-- `flat_map` over the terms.
pub all_requirements : List NodeSelectorTerm → List NodeSelectorRequirement
all_requirements [] = []
all_requirements (term ∷ terms) = term_requirements term ++ all_requirements terms

abbrev requirement_key : Option NodeSelectorRequirement → Option String
requirement_key none = none
requirement_key (some requirement) = some requirement.key

unfoldable pub first_unsatisfied_node_selector_key : NodeSelector → Dict String → Option String
unfolding all_requirements
first_unsatisfied_node_selector_key selector labels =
    if node_selector_matches selector labels
    then none
    else requirement_key (
        find (λ r. not (node_selector_requirement_matches r labels))
          (all_requirements selector.node_selector_terms))

pub label_operator_matches : String → Option String → List String → Bool
label_operator_matches operator value values =
    if operator == "In"
    then is_some_and value (contains values)
    else if operator == "NotIn"
    then is_none_or value (λ v. not (contains values v))
    else if operator == "Exists"
    then is_some value
    else if operator == "DoesNotExist"
    then not (is_some value)
    else false

abbrev pub label_selector_requirement_matches : LabelSelectorRequirement → Dict String → Bool
label_selector_requirement_matches requirement labels =
    label_operator_matches requirement.operator (get requirement.key labels) requirement.values

-- `labels.get(key) == Some(value)`.
abbrev pub has_label : Dict String → String × String → Bool
has_label labels entry = is_some_and (get entry.0 labels) (λ v. v == entry.1)

unfoldable pub label_selector_matches : Option LabelSelector → Dict String → Bool
unfolding label_operator_matches
label_selector_matches none labels = true
label_selector_matches (some selector) labels =
    all (has_label labels) selector.match_labels
    && all (λ r. label_selector_requirement_matches r labels) selector.match_expressions

abbrev topology_requirement_matches : Dict String → TopologySelectorLabelRequirement → Bool
topology_requirement_matches labels requirement =
    is_some_and (get requirement.key labels) (contains requirement.values)

abbrev pub topology_selector_term_matches : TopologySelectorTerm → Dict String → Bool
topology_selector_term_matches term labels =
    all (topology_requirement_matches labels) term.match_label_expressions

unfoldable pub topology_selector_terms_match : List TopologySelectorTerm → Dict String → Bool
topology_selector_terms_match terms labels =
    is_empty terms || any (λ term. topology_selector_term_matches term labels) terms
