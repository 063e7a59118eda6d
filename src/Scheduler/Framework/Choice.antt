-- ===== src/Scheduler/Framework/Choice.antt =====
-- Which node `Framework::schedule` of tugboat-scheduler/src/framework/mod.rs chooses.
use tugboat.Base.{
  ◌≡◌, refl, ◌↔◌, inl, inr, true, false, Option, none, some, List, [], ◌∷◌, ◌++◌, Memᴰ, arith,
  first, is_empty, Bool-cases, Option-cases, if◌then◌else◌, ap, subst, each_cons, sym, ◌∙◌,
}
use mathlib.Core.List.Memᴰ
use mathlib.Core.Option
use tugboat.Base.Int.{ℤ, ◌≤ℤ◌, ◌<ℤ◌, ltb_ℤ}
use tugboat.Manifests.Node.{Node}
use tugboat.Scheduler.Context.{SchedulingContext}
use tugboat.Scheduler.Framework.Passes.{
  IsAccepted, IsRejected, passes-each, passes_of_each, not_passed,
}
use tugboat.Scheduler.Framework.{
  Framework, passes, total_score, insert_scored, schedule, filter_nodes, score_nodes,
}

-- The entry at the head of the sorted list, as the loop over the entries would find it.
lead : Option (Node × ℤ) → Node × ℤ → Node × ℤ
lead none x = x
lead (some y) x = if ltb_ℤ x.1 y.1 then y else x

first-insert_scored :
    (x : Node × ℤ) (ys : List (Node × ℤ)) → first (insert_scored x ys) ≡ some (lead (first ys) x)
unfolding insert_scored lead
first-insert_scored x [] = refl
first-insert_scored x (y ∷ ys) = ground arith

module _ (fw : Framework) (ctx : SchedulingContext) where
  abbrev total : Node → ℤ
  total = total_score fw.score_plugins ctx

  -- The head of what `score_nodes` makes of the nodes that pass.
  chosen : List Node → Option (Node × ℤ)
  chosen nodes = first (score_nodes fw ctx (filter_nodes fw ctx nodes))

  chosen-cons_out :
      (node : Node) (nodes : List Node)
      → passes fw.filter_plugins ctx node ≡ false
      → chosen (node ∷ nodes) ≡ chosen nodes
  unfolding chosen filter_nodes
  chosen-cons_out node nodes h = rw h

  chosen-cons_in :
      (node : Node) (nodes : List Node)
      → passes fw.filter_plugins ctx node ≡ true
      → chosen (node ∷ nodes) ≡ some (lead (chosen nodes) (node, total node))
  unfolding chosen filter_nodes score_nodes
  chosen-cons_in node nodes h = rw h (first-insert_scored (node, total node) _)

  -- The first of the best accepted nodes.
  pub record IsFirstBest (nodes : List Node) (node : Node) : Type 0 where
    pub before : List Node
    pub after : List Node
    pub split : nodes ≡ before ++ node ∷ after
    pub accepted : IsAccepted fw ctx node
    pub beats : (m : Node) → Memᴰ m before → IsAccepted fw ctx m → total m <ℤ total node
    pub keeps : (m : Node) → Memᴰ m after → IsAccepted fw ctx m → total m ≤ℤ total node

  NonePasses : List Node → Type 0
  NonePasses nodes = (m : Node) → Memᴰ m nodes → passes fw.filter_plugins ctx m ≡ false

  abbrev Outcome : List Node → Option (Node × ℤ) → Type 0
  Outcome nodes none = NonePasses nodes
  Outcome nodes (some (node, s)) = (s ≡ total node) × IsFirstBest nodes node

  not-IsAccepted : (m : Node) → passes fw.filter_plugins ctx m ≡ false → ¬ IsAccepted fw ctx m
  not-IsAccepted m h a = let k = passes_of_each ctx m fw.filter_plugins a in cc

  module _ (node : Node) (nodes : List Node) where
    skip_rejected :
        {n : Node}
        → passes fw.filter_plugins ctx node ≡ false
        → IsFirstBest nodes n
        → IsFirstBest (node ∷ nodes) n
    skip_rejected {n} h b = record {
      before = node ∷ b.before;
      after = b.after;
      split = ap (◌∷◌ node) b.split;
      accepted = b.accepted;
      beats =
          each_cons (λ m. IsAccepted fw ctx m → total m <ℤ total n) b.before
            (λ a. absurd (not-IsAccepted node h a)) b.beats;
      keeps = b.keeps;
    }

    skip_worse :
        {n : Node} → total node <ℤ total n → IsFirstBest nodes n → IsFirstBest (node ∷ nodes) n
    skip_worse {n} h b = record {
      before = node ∷ b.before;
      after = b.after;
      split = ap (◌∷◌ node) b.split;
      accepted = b.accepted;
      beats = each_cons (λ m. IsAccepted fw ctx m → total m <ℤ total n) b.before (λ a. h) b.beats;
      keeps = b.keeps;
    }

    take_first :
        passes fw.filter_plugins ctx node ≡ true
        → ((m : Node) → Memᴰ m nodes → IsAccepted fw ctx m → total m ≤ℤ total node)
        → IsFirstBest (node ∷ nodes) node
    take_first h k = record {
      before = [];
      after = nodes;
      split = refl;
      accepted = λ plugin m. passes-each ctx node fw.filter_plugins plugin h m;
      beats = λ m i. elim i [ ];
      keeps = k;
    }

  Outcome-skip :
      (node : Node) (nodes : List Node) (r : Option (Node × ℤ))
      → passes fw.filter_plugins ctx node ≡ false
      → Outcome nodes r
      → Outcome (node ∷ nodes) r
  unfolding NonePasses
  Outcome-skip node nodes none h o =
      each_cons (λ m. passes fw.filter_plugins ctx m ≡ false) nodes h o
  Outcome-skip node nodes (some (n, s)) h (e, b) = (e, skip_rejected node nodes h b)

  IsFirstBest-all :
      {nodes : List Node} {n : Node}
      → IsFirstBest nodes n
      → (m : Node) → Memᴰ m nodes
      → IsAccepted fw ctx m
      → total m ≤ℤ total n
  IsFirstBest-all {n} b m i a = elim (Memᴰ.append_cases b.before (subst (Memᴰ m) b.split i)) [
    | inl k ↦ let w = b.beats m k a in omega arith
    | inr k ↦
        each_cons (λ q. IsAccepted fw ctx q → total q ≤ℤ total n) b.after (λ _. omega arith) b.keeps
          m k a
  ]

  first_step :
      (node : Node) (nodes : List Node) (r : Option (Node × ℤ))
      → passes fw.filter_plugins ctx node ≡ true
      → Outcome nodes r
      → Outcome (node ∷ nodes) (some (lead r (node, total node)))
  unfolding lead NonePasses
  first_step node nodes none h o =
      (refl, take_first node nodes h (λ m i a. absurd (not-IsAccepted m (o m i) a)))
  first_step node nodes (some (n, s)) h (e, b) = elim (Bool-cases (ltb_ℤ (total node) s)) [
    | inl less ↦ rw less (e, skip_worse node nodes (ground arith) b)
    | inr not_less ↦
        rw not_less
          (refl, take_first node nodes h λ m i a. let w = IsFirstBest-all b m i a in ground arith)
  ]

  chosen-nil : Outcome [] (chosen [])
  unfolding chosen filter_nodes score_nodes NonePasses
  chosen-nil m i = elim i [ ]

  chosen-Outcome : (nodes : List Node) → Outcome nodes (chosen nodes)
  chosen-Outcome [] = chosen-nil
  chosen-Outcome (node ∷ nodes) = elim (Bool-cases (passes fw.filter_plugins ctx node)) [
    | inl h ↦
        rw (chosen-cons_in node nodes h)
          (first_step node nodes (chosen nodes) h (chosen-Outcome nodes))
    | inr h ↦
        rw (chosen-cons_out node nodes h)
          (Outcome-skip node nodes (chosen nodes) h (chosen-Outcome nodes))
  ]

  schedule-chosen :
      (nodes : List Node) → schedule fw ctx nodes ≡ Option.map (λ p. p.0) (chosen nodes)
  unfolding schedule chosen score_nodes
  schedule-chosen nodes = by_filtered (filter_nodes fw ctx nodes)
    where
      by_filtered :
          (xs : List Node)
          → (if is_empty xs then none else Option.map (λ p. p.0) (first (score_nodes fw ctx xs)))
            ≡ Option.map (λ p. p.0) (first (score_nodes fw ctx xs))
      by_filtered [] = refl
      by_filtered (x ∷ xs) = refl

  schedule-Outcome :
      (nodes : List Node) (r : Option (Node × ℤ)) (n : Node)
      → Outcome nodes r
      → Option.map (λ p. p.0) r ≡ some n
      → IsFirstBest nodes n
  schedule-Outcome nodes none n o e = absurd (cc)
  schedule-Outcome nodes (some (m, s)) n o e = let k : m ≡ n = cc in subst (IsFirstBest nodes) k o.1

  none-Outcome :
      (nodes : List Node) (r : Option (Node × ℤ))
      → Outcome nodes r
      → Option.map (λ p. p.0) r ≡ none
      → NonePasses nodes
  none-Outcome nodes none o e = o
  none-Outcome nodes (some p) o e = absurd (cc)

-- The node that `schedule` returns is one of the candidates, every filter plugin accepts it, and it
-- is the first of the best: an accepted node in front of it has a smaller total score, and one
-- behind it has none greater.
pub schedule-IsFirstBest :
    (fw : Framework) (ctx : SchedulingContext) (nodes : List Node) (node : Node)
    → schedule fw ctx nodes ≡ some node
    → IsFirstBest fw ctx nodes node
schedule-IsFirstBest fw ctx nodes node h =
    schedule-Outcome fw ctx nodes (chosen fw ctx nodes) node (chosen-Outcome fw ctx nodes)
      (sym (schedule-chosen fw ctx nodes) ∙ h)

-- `schedule` returns no node exactly when each candidate is rejected by some filter plugin.
pub schedule-eq-none_iff :
    (fw : Framework) (ctx : SchedulingContext) (nodes : List Node)
    → (schedule fw ctx nodes ≡ none) ↔ ((node : Node) → Memᴰ node nodes → IsRejected fw ctx node)
unfolding NonePasses
schedule-eq-none_iff fw ctx nodes = (to, from)
  where
    to : schedule fw ctx nodes ≡ none → (node : Node) → Memᴰ node nodes → IsRejected fw ctx node
    to h node m = not_passed ctx node fw.filter_plugins (
        none-Outcome fw ctx nodes (chosen fw ctx nodes) (chosen-Outcome fw ctx nodes)
          (sym (schedule-chosen fw ctx nodes) ∙ h) node m)

    from : ((node : Node) → Memᴰ node nodes → IsRejected fw ctx node) → schedule fw ctx nodes ≡ none
    from k = elim (Option-cases (schedule fw ctx nodes)) [
      | inl e ↦ e
      | inr (node, e) ↦
          let b = schedule-IsFirstBest fw ctx nodes node e in
          let (plugin, reason, m, r) =
            k node
              (subst (Memᴰ node) (sym b.split) (Memᴰ.append_right b.before (Memᴰ.head refl))) in
          let a = b.accepted plugin m in absurd (cc)
    ]
