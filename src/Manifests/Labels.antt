-- ===== src/Manifests/Labels.antt =====
-- Selectors: meta/v1/object_meta.proto (LabelSelector) and core/v1/selector.proto.
use tugboat.Base.{String, List}
use tugboat.Base.Dict.{Dict}

pub record LabelSelectorRequirement : Type 0 where
  pub key : String
  pub operator : String
  pub values : List String

pub record LabelSelector : Type 0 where
  pub match_labels : Dict String
  pub match_expressions : List LabelSelectorRequirement

pub record NodeSelectorRequirement : Type 0 where
  pub key : String
  pub operator : String
  pub values : List String

pub record NodeSelectorTerm : Type 0 where
  pub match_expressions : List NodeSelectorRequirement
  pub match_fields : List NodeSelectorRequirement

pub record NodeSelector : Type 0 where
  pub node_selector_terms : List NodeSelectorTerm

pub record TopologySelectorLabelRequirement : Type 0 where
  pub key : String
  pub values : List String

pub record TopologySelectorTerm : Type 0 where
  pub match_label_expressions : List TopologySelectorLabelRequirement
