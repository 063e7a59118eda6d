-- ===== src/Scheduler/Framework/Passes.antt =====
-- The filter loop of tugboat-scheduler/src/framework/mod.rs: a node passes if every plugin
-- accepts it.
use tugboat.Base.{◌≡◌, refl, ◌⊎◌, inl, inr, true, false, List, [], ◌∷◌, Memᴰ, arith}
use tugboat.Manifests.Node.{Node}
use tugboat.Scheduler.Context.{SchedulingContext}
use tugboat.Scheduler.Framework.{
  Framework, FilterPlugin, FilterResult, accept, reject, Reason, passes,
}

abbrev pub IsAccepted : Framework → SchedulingContext → Node → Type 0
IsAccepted fw ctx node =
    (plugin : FilterPlugin) → Memᴰ plugin fw.filter_plugins → plugin.filter ctx node ≡ accept

abbrev pub IsRejected : Framework → SchedulingContext → Node → Type 0
IsRejected fw ctx node =
    (plugin : FilterPlugin) × (reason : Reason) × Memᴰ plugin fw.filter_plugins
    × (plugin.filter ctx node ≡ reject reason)

FilterResult-cases : (r : FilterResult) → (r ≡ accept) ⊎ ((reason : Reason) × (r ≡ reject reason))
FilterResult-cases accept = inl refl
FilterResult-cases (reject reason) = inr (reason, refl)

module _ (ctx : SchedulingContext) (node : Node) where
  pub passes-each :
      (plugins : List FilterPlugin) (plugin : FilterPlugin)
      → passes plugins ctx node ≡ true
      → Memᴰ plugin plugins
      → plugin.filter ctx node ≡ accept
  unfolding passes
  passes-each [] plugin h m = elim m [ ]
  passes-each (p ∷ ps) plugin h (Memᴰ.head e) = rw e (ground arith)
  passes-each (p ∷ ps) plugin h (Memᴰ.tail m) = passes-each ps plugin (ground arith) m

  pub passes_of_each :
      (plugins : List FilterPlugin)
      → ((plugin : FilterPlugin) → Memᴰ plugin plugins → plugin.filter ctx node ≡ accept)
      → passes plugins ctx node ≡ true
  unfolding passes
  passes_of_each [] h = refl
  passes_of_each (p ∷ ps) h =
      ground (arith, h p (Memᴰ.head refl), passes_of_each ps (λ q m. h q (Memᴰ.tail m)))

  pub not_passed :
      (plugins : List FilterPlugin)
      → passes plugins ctx node ≡ false
      → (plugin : FilterPlugin) × (reason : Reason) × Memᴰ plugin plugins
        × (plugin.filter ctx node ≡ reject reason)
  unfolding passes
  not_passed [] h = absurd (cc)
  not_passed (p ∷ ps) h = elim (FilterResult-cases (p.filter ctx node)) [
    | inl e ↦
        let (q, reason, m, k) = not_passed ps (rw (e, passes) at h) in (q, reason, Memᴰ.tail m, k)
    | inr (reason, e) ↦ (p, reason, Memᴰ.head refl, e)
  ]
