-- ===== src/Scheduler/Plugins/Simple/Scores.antt =====
-- The score of tugboat-scheduler/src/plugins/node_affinity_score.rs as a share of the weights.
use tugboat.Base.{
  ℕ, ◌+◌, ◌*◌, ◌/◌, ◌≤◌, ◌<◌, min, ◌≡◌, refl, sym, ◌∙◌, String, false, some, List, [], ◌∷◌, filter,
  is_empty, arith, if◌then◌else◌, Bool-cases, inl, inr,
}
use native.Mathlib.Nat.{add-zero, zero-add, mul_comm, add_assoc, div-le_of_le-mul}
use tugboat.Base.Dict.{Dict}
use tugboat.Base.Int.{ℤ, pos, negsuc, ◌+ℤ◌, ◌*ℤ◌, pos_part, is_zero_ℤ, clamp_ℤ}
use tugboat.Manifests.Meta.{meta_labels}
use tugboat.Manifests.Node.{Node}
use tugboat.Manifests.Ship.{NodeAffinity, PreferredSchedulingTerm}
use tugboat.Scheduler.Context.{SchedulingContext}
use tugboat.Scheduler.Framework.{score, skip}
use tugboat.Scheduler.Plugins.Simple.{
  ship_node_affinity, term_weight, preference_matches, weight_loop, weighted_score,
  node_affinity_score,
}

-- The weight of a preference, cut to 0..100, and the sum over a list.
abbrev pub weight_of : PreferredSchedulingTerm → ℕ
weight_of term = min (pos_part term.weight) 100

abbrev pub sum_weights : List PreferredSchedulingTerm → ℕ
sum_weights [] = 0
sum_weights (term ∷ terms) = weight_of term + sum_weights terms

term_weight-eq : (term : PreferredSchedulingTerm) → term_weight term ≡ pos (weight_of term)
term_weight-eq term = clamp term.weight
  where
    clamp : (w : ℤ) → clamp_ℤ (pos 0) (pos 100) w ≡ pos (min (pos_part w) 100)
    clamp (pos n) = ground arith
    clamp (negsuc n) = ground arith

add_pos : (a b : ℕ) → pos a +ℤ pos b ≡ pos (a + b)
unfolding ◌+ℤ◌
add_pos a b = ground arith

module _ (labels : Dict String) where
  abbrev pub matching : List PreferredSchedulingTerm → List PreferredSchedulingTerm
  matching = filter (preference_matches labels)

  weight_loop-eq :
      (terms : List PreferredSchedulingTerm) (a b : ℕ)
      → weight_loop labels (pos a, pos b) terms
        ≡ (pos (a + sum_weights terms), pos (b + sum_weights (matching terms)))
  unfolding weight_loop
  weight_loop-eq [] a b = cc (add-zero a, add-zero b)
  weight_loop-eq (t ∷ ts) a b = elim (Bool-cases (preference_matches labels t)) [
    | inl e ↦ rw (
      e,
      term_weight-eq t,
      add_pos a (weight_of t),
      add_pos b (weight_of t),
      weight_loop-eq ts (a + weight_of t) (b + weight_of t),
      add_assoc a (weight_of t) (sum_weights ts),
      add_assoc b (weight_of t) (sum_weights (matching ts)),
    )
    | inr e ↦ rw (
      e,
      term_weight-eq t,
      add_pos a (weight_of t),
      weight_loop-eq ts (a + weight_of t) b,
      add_assoc a (weight_of t) (sum_weights ts),
    )
  ]

  matching-bounded :
      (terms : List PreferredSchedulingTerm) → sum_weights (matching terms) ≤ sum_weights terms
  matching-bounded [] = omega arith
  matching-bounded (t ∷ ts) = ground (arith, matching-bounded ts)

share-bounded : (m t : ℕ) → m ≤ t → m * 100 / t ≤ 100
share-bounded m t h = div-le_of_le-mul t (omega (arith, mul_comm t 100))

weighted_score-zero : (m : ℕ) → weighted_score (pos 0, pos m) ≡ skip
unfolding weighted_score
weighted_score-zero m = refl

times_100 : (m : ℕ) → pos m *ℤ pos 100 ≡ pos (m * 100)
unfolding ◌*ℤ◌
times_100 m = ground arith

weighted_score-pos : (t m : ℕ) → 0 < t → weighted_score (pos t, pos m) ≡ score (pos (m * 100 / t))
unfolding weighted_score
weighted_score-pos t m h =
    let positive : is_zero_ℤ (pos t) ≡ false = ground arith in rw (positive, times_100 m)

score_of_terms :
    (labels : Dict String) (terms : List PreferredSchedulingTerm)
    → (if is_empty terms then skip else weighted_score (weight_loop labels (pos 0, pos 0) terms))
      ≡ weighted_score (pos (sum_weights terms), pos (sum_weights (matching labels terms)))
score_of_terms labels [] = sym (weighted_score-zero 0)
score_of_terms labels (t ∷ ts) = rw (
  weight_loop-eq labels (t ∷ ts) 0 0,
  zero-add (sum_weights (t ∷ ts)),
  zero-add (sum_weights (matching labels (t ∷ ts))),
)

-- With preferences whose weights, each cut to 0..100, sum to more than 0, the score is the share of
-- the preferences that match in percent, rounded down, and at most 100; with a sum of 0, or with no
-- preference, the plugin abstains.
pub node_affinity_score-eq :
    (ctx : SchedulingContext) (node : Node) (affinity : NodeAffinity)
    → ship_node_affinity ctx ≡ some affinity
    → let terms = affinity.preferred_during_scheduling in
      let total = sum_weights terms in
      let matched = sum_weights (matching (meta_labels node.object_meta) terms) in
      (total ≡ 0 → node_affinity_score ctx node ≡ skip)
      × (0 < total → node_affinity_score ctx node ≡ score (pos (matched * 100 / total)))
      × (matched * 100 / total ≤ 100)
unfolding node_affinity_score
node_affinity_score-eq ctx node affinity h =
    let terms = affinity.preferred_during_scheduling in
    let labels = meta_labels node.object_meta in
    let e : node_affinity_score ctx node
        ≡ weighted_score (pos (sum_weights terms), pos (sum_weights (matching labels terms))) =
      rw (h, node_affinity_score) (score_of_terms labels terms) in
    (
      λ z. e ∙ rw z (weighted_score-zero (sum_weights (matching labels terms))),
      λ k. e ∙ weighted_score-pos _ _ k,
      share-bounded _ _ (matching-bounded labels terms),
    )
