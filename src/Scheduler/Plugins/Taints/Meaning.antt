-- ===== src/Scheduler/Plugins/Taints/Meaning.antt =====
-- The taint plugins of tugboat-scheduler/src/plugins/taint_toleration.rs against a relation between
-- tolerations and taints.
use tugboat.Base.{
  ◌*◌, ◌≡◌, refl, ◌↔◌, ◌⊎◌, inl, inr, String, true, Option, none, some, List, [], ◌∷◌, Memᴰ, arith,
  ◌==◌, eq_iff, any_of_mem, mem_of_any, unwrap_or, Bool-cases, count, ap, ◌∙◌,
}
use tugboat.Base.Int.{ℤ, pos, sub_ℕ, ◌-ℤ◌, int_laws}
use tugboat.Manifests.Node.{Node, Taint}
use tugboat.Manifests.Ship.{Toleration}
use tugboat.Scheduler.Context.{SchedulingContext}
use tugboat.Scheduler.Framework.{accept, score}
use tugboat.Scheduler.Plugins.Taints.{
  toleration_matches_taint, node_taints, ship_tolerations, ship_tolerates_taint, repels,
  no_schedule_loop, taint_toleration, penalty_loop, taint_toleration_score,
}

-- When a toleration covers a taint. Without a key it covers any key; the effect "" covers every
-- effect; with a key, the operator "Exists" covers every value, and "Equal" or "" its own.
pub data Tolerates (toleration : Toleration) (taint : Taint) : Type 0 where
  any_key :
      toleration.key ≡ none
      → (toleration.effect ≡ "") ⊎ (toleration.effect ≡ taint.effect)
      → Tolerates toleration taint
  any_value :
      toleration.key ≡ some taint.key
      → (toleration.effect ≡ "") ⊎ (toleration.effect ≡ taint.effect)
      → toleration.operator ≡ "Exists"
      → Tolerates toleration taint
  equal_value :
      toleration.key ≡ some taint.key
      → (toleration.effect ≡ "") ⊎ (toleration.effect ≡ taint.effect)
      → (toleration.operator ≡ "Equal") ⊎ (toleration.operator ≡ "")
      → unwrap_or toleration.value "" ≡ taint.value
      → Tolerates toleration taint

matches→Tolerates :
    (toleration : Toleration) (taint : Taint) (key : Option String)
    → toleration.key ≡ key
    → toleration_matches_taint toleration taint ≡ true
    → Tolerates toleration taint
unfolding toleration_matches_taint
matches→Tolerates t taint none e h =
    any_key e (ground (arith, eq_iff t.effect "", eq_iff t.effect taint.effect))
matches→Tolerates t taint (some key) e h = elim (Bool-cases (t.operator == "Exists")) [
  | inl f ↦
      any_value (ground (arith, eq_iff key taint.key))
        (ground (arith, eq_iff t.effect "", eq_iff t.effect taint.effect))
        ((eq_iff t.operator "Exists").0 f)
  | inr f ↦
      equal_value (ground (arith, eq_iff key taint.key))
        (ground (arith, eq_iff t.effect "", eq_iff t.effect taint.effect))
        (ground (arith, eq_iff t.operator "Equal", eq_iff t.operator ""))
        (ground (arith, eq_iff (unwrap_or t.value "") taint.value))
]

Tolerates→matches :
    (toleration : Toleration) (taint : Taint)
    → Tolerates toleration taint
    → toleration_matches_taint toleration taint ≡ true
unfolding toleration_matches_taint
Tolerates→matches t taint (any_key e f) =
    ground (arith, eq_iff t.effect "", eq_iff t.effect taint.effect)
Tolerates→matches t taint (any_value e f g) = ground (
  arith,
  eq_iff t.effect "",
  eq_iff t.effect taint.effect,
  eq_iff taint.key taint.key,
  eq_iff t.operator "Exists",
)
Tolerates→matches t taint (equal_value e f g v) = ground (
  arith,
  eq_iff t.effect "",
  eq_iff t.effect taint.effect,
  eq_iff taint.key taint.key,
  eq_iff t.operator "Equal",
  eq_iff t.operator "",
  eq_iff (unwrap_or t.value "") taint.value,
)

-- Some toleration of the list covers the taint.
abbrev pub IsTolerated : List Toleration → Taint → Type 0
IsTolerated tolerations taint =
    (toleration : Toleration) × Memᴰ toleration tolerations × Tolerates toleration taint

IsTolerated-iff :
    (tolerations : List Toleration) (taint : Taint)
    → (ship_tolerates_taint tolerations taint ≡ true) ↔ IsTolerated tolerations taint
IsTolerated-iff tolerations taint = (
  λ h.
      let (t, m, e) = mem_of_any (λ t. toleration_matches_taint t taint) tolerations h in
      (t, m, matches→Tolerates t taint t.key refl e),
  λ p.
      any_of_mem (λ t. toleration_matches_taint t taint) tolerations p.1
        (Tolerates→matches p.0 taint p.2),
)

no_schedule_accepts :
    (tolerations : List Toleration) (taints : List Taint) (taint : Taint)
    → no_schedule_loop tolerations taints ≡ accept
    → Memᴰ taint taints
    → taint.effect ≡ "NoSchedule"
    → ship_tolerates_taint tolerations taint ≡ true
unfolding no_schedule_loop
no_schedule_accepts tolerations [] taint h m e = elim m [ ]
no_schedule_accepts tolerations (t ∷ ts) taint h (Memᴰ.head k) e =
    rw k (ground (arith, eq_iff t.effect "NoSchedule"))
no_schedule_accepts tolerations (t ∷ ts) taint h (Memᴰ.tail m) e =
    no_schedule_accepts tolerations ts taint (ground arith) m e

accepts_no_schedule :
    (tolerations : List Toleration) (taints : List Taint)
    → ((taint : Taint)
        → Memᴰ taint taints
        → taint.effect ≡ "NoSchedule"
        → ship_tolerates_taint tolerations taint ≡ true)
    → no_schedule_loop tolerations taints ≡ accept
unfolding no_schedule_loop
accepts_no_schedule tolerations [] h = refl
accepts_no_schedule tolerations (t ∷ ts) h = ground (
  arith,
  eq_iff t.effect "NoSchedule",
  h t (Memᴰ.head refl),
  accepts_no_schedule tolerations ts (λ u m. h u (Memᴰ.tail m)),
)

-- The filter accepts a node exactly when each of its taints with the effect "NoSchedule" is
-- tolerated by the ship.
pub taint_toleration_iff :
    (ctx : SchedulingContext) (node : Node)
    → (taint_toleration ctx node ≡ accept) ↔ (
        (taint : Taint)
        → Memᴰ taint (node_taints node)
        → taint.effect ≡ "NoSchedule"
        → IsTolerated (ship_tolerations ctx.ship) taint)
unfolding taint_toleration
taint_toleration_iff ctx node = (
  λ h taint m e. (IsTolerated-iff _ taint).0 (no_schedule_accepts _ (node_taints node) taint h m e),
  λ h.
      accepts_no_schedule _ (node_taints node)
        (λ taint m e. (IsTolerated-iff _ taint).1 (h taint m e)),
)

penalty_loop-eq :
    (tolerations : List Toleration) (taints : List Taint) (penalty : ℤ)
    → penalty_loop tolerations penalty taints
      ≡ penalty -ℤ pos (50 * count (repels "PreferNoSchedule" tolerations) taints)
unfolding penalty_loop
penalty_loop-eq tolerations [] penalty = omega int_laws
penalty_loop-eq tolerations (t ∷ ts) penalty =
    elim (Bool-cases (repels "PreferNoSchedule" tolerations t)) [
      | inl e ↦ rw (e, penalty_loop-eq tolerations ts (penalty -ℤ pos 50)) (omega int_laws)
      | inr e ↦ rw e (penalty_loop-eq tolerations ts penalty)
    ]

-- The score is -50 for each of the node's taints with the effect "PreferNoSchedule" that the ship
-- does not tolerate.
pub taint_toleration_score-eq :
    (ctx : SchedulingContext) (node : Node)
    → taint_toleration_score ctx node
      ≡ score (
          sub_ℕ 0
            (50 * count (repels "PreferNoSchedule" (ship_tolerations ctx.ship)) (node_taints node)))
unfolding taint_toleration_score ◌-ℤ◌
taint_toleration_score-eq ctx node =
    ap score
      (penalty_loop-eq (ship_tolerations ctx.ship) (node_taints node) (pos 0) ∙ (ground arith))
