-- ===== src/Client/Finalizer/Ownership.antt =====
-- What finalizers are for: no controller is left holding something for a resource that is gone.
use tugboat.Base.{
  ◌≡◌, ◌≢◌, refl, sym, ◌∙◌, ap, inl, inr, String, Bool, true, false, not, ◌&&◌, Option, some, arith,
  eq_iff, ◌==◌, Bool-cases, Option-cases,
}
use tugboat.Base.Results.{Result, ok, err}
use tugboat.Manifests.Meta.{ObjectMeta, meta_name}
use tugboat.Manifests.Resource.{
  has_finalizer, has_finalizers, add_finalizer, remove_finalizer, is_deleting,
}
use tugboat.Manifests.Resource.Finalizers.{
  has_finalizer-add_finalizer, has_finalizer-remove_finalizer,
}
use tugboat.Client.Runner.{Action}
use tugboat.Client.Finalizer.{
  FinalizerEvent, apply, cleanup, ObjectApi, finalizer, after_adding, after_apply, after_cleanup,
  after_removing,
}

module _ (api : ObjectApi) (object : api.World → Option api.T) where
  -- The resource is there, and has this finalizer.
  abbrev pub IsProtected : api.World → String → Type 0
  IsProtected w g = (t : api.T) × (object w ≡ some t) × (has_finalizer (api.object_meta t) g ≡ true)

  -- What the API documents: a replacement changes the finalizers to the given ones or does nothing,
  -- and a resource with finalizers is not removed, by a deletion or otherwise. `holds w g` says that
  -- the controller with the finalizer g holds something outside for the resource.
  pub record KeepsFinalizers (holds : api.World → String → Bool) : Type 0 where
    pub metadata-set :
        (meta : Option ObjectMeta) (t : api.T) → api.object_meta (api.with_meta meta t) ≡ meta
    pub replace-protects :
        (w : api.World) (name : String) (t : api.T) (g : String)
        → has_finalizer (api.object_meta t) g ≡ true
        → IsProtected w g
        → IsProtected (api.replace w name t).1 g
    pub replace-outside :
        (w : api.World) (name : String) (t : api.T) (g : String)
        → holds (api.replace w name t).1 g ≡ holds w g
    pub delete-protects :
        (w : api.World) (name g : String) → IsProtected w g → IsProtected (api.delete w name).1 g
    pub delete-outside :
        (w : api.World) (name g : String) → holds (api.delete w name).1 g ≡ holds w g

  module _ (reconcile : api.World → FinalizerEvent api.T → Result String Action × api.World)
      (holds : api.World → String → Bool) where
    -- What is asked of the handler of the controller with the finalizer f: it leaves the finalizers
    -- alone, takes hold of things for itself only, and when a cleanup succeeds it holds nothing.
    pub record IsHandler (f : String) : Type 0 where
      pub handler-protects :
          (w : api.World) (event : FinalizerEvent api.T) (g : String)
          → IsProtected w g
          → IsProtected (reconcile w event).1 g
      pub apply-outside :
          (w : api.World) (t : api.T) (g : String)
          → g ≢ f
          → holds (reconcile w (apply t)).1 g ≡ holds w g
      pub cleanup-outside :
          (w : api.World) (t : api.T) (g : String)
          → holds (reconcile w (cleanup t)).1 g ≡ true
          → holds w g ≡ true
      pub cleanup-done :
          (w w' : api.World) (t : api.T) (action : Action)
          → reconcile w (cleanup t) ≡ (ok action, w')
          → holds w' f ≡ false

    -- Whoever holds something for the resource is named by a finalizer of it.
    abbrev Guarded : api.World → Type 0
    Guarded w = (g : String) → holds w g ≡ true → IsProtected w g

    pub record IsGuarded (w : api.World) : Type 0 where
      pub holders_named : Guarded w

    module _ (f : String) (laws : KeepsFinalizers holds) (handler : IsHandler f) where
      other_than :
          (w : api.World) (t : api.T) (action : Action) (w' : api.World) (g : String)
          → reconcile w (cleanup t) ≡ (ok action, w')
          → holds w' g ≡ true
          → g ≢ f
      other_than w t action w' g e h same =
          let gone : holds w' f ≡ false = handler.cleanup-done w w' t action e in
          let both : true ≡ false = sym h ∙ ap (holds w') same ∙ gone in absurd (cc)

      replaced-Guarded :
          (w : api.World) (name : String) (t : api.T)
          → ((g : String)
              → holds w g ≡ true
              → IsProtected w g × (has_finalizer (api.object_meta t) g ≡ true))
          → Guarded (api.replace w name t).1
      replaced-Guarded w name t each g h =
          let held : holds w g ≡ true = sym (laws.replace-outside w name t g) ∙ h in
          let (before, has) = each g held in laws.replace-protects w name t g has before

      deleted-Guarded : (w : api.World) (name : String) → Guarded w → Guarded (api.delete w name).1
      deleted-Guarded w name before g h =
          laws.delete-protects w name g (before g (sym (laws.delete-outside w name g) ∙ h))

      added-Guarded :
          (answer : Result String api.T × api.World)
          → Guarded answer.1
          → Guarded (after_adding api reconcile answer).1
      added-Guarded (err e, w) h = h
      added-Guarded (ok t, w) h = h

      applied-Guarded :
          (answer : Result String Action × api.World)
          → Guarded answer.1
          → Guarded (after_apply api reconcile answer).1
      applied-Guarded (err e, w) h = h
      applied-Guarded (ok t, w) h = h

      removed-Guarded :
          (name : String) (action : Action) (answer : Result String api.T × api.World)
          → Guarded answer.1
          → Guarded (after_removing api reconcile name action answer).1
      removed-Guarded name action (err e, w) h = h
      removed-Guarded name action (ok t, w) h =
          elim (Bool-cases
            (is_deleting (api.object_meta t) && not (has_finalizers (api.object_meta t)))) [
              | inl e ↦ rw e (deleted-Guarded w name h)
              | inr e ↦ rw e h
            ]

      -- The finalizers of a resource that the world holds.
      has_of :
          (w : api.World) (t : api.T) (g : String)
          → object w ≡ some t
          → IsProtected w g
          → has_finalizer (api.object_meta t) g ≡ true
      has_of w t g e (other, there, has) = let same : other ≡ t = ground arith in rw (← same) has

      cleaned-Guarded :
          (w : api.World) (name : String) (t : api.T)
          → object w ≡ some t
          → Guarded w
          → (answer : Result String Action × api.World) → reconcile w (cleanup t) ≡ answer
          → Guarded (after_cleanup api reconcile name f t answer).1
      cleaned-Guarded w name t there before (err e, w') h =
          let world : (reconcile w (cleanup t)).1 ≡ w' = ap (λ x. x.1) h in
          λ g held.
            let held' : holds w g ≡ true = handler.cleanup-outside w t g (rw world held) in
            rw (← world) (handler.handler-protects w (cleanup t) g (before g held'))
      cleaned-Guarded w name t there before (ok action, w') h =
          let world : (reconcile w (cleanup t)).1 ≡ w' = ap (λ x. x.1) h in
          removed-Guarded name action _ (
            replaced-Guarded w' name _ (λ g held.
              let held' : holds w g ≡ true = handler.cleanup-outside w t g (rw world held) in
              let kept = handler.handler-protects w (cleanup t) g (before g held') in
              let has = has_of w t g there (before g held') in
              let other = other_than w t action w' g h held in
              (
                rw (← world) kept,
                rw (laws.metadata-set (remove_finalizer (api.object_meta t) f) t)
                    (has_finalizer-remove_finalizer (api.object_meta t) f g other has),
              )))

      handled-Guarded :
          (w : api.World) (t : api.T)
          → has_finalizer (api.object_meta t) f ≡ true
          → object w ≡ some t
          → Guarded w
          → Guarded (reconcile w (apply t)).1
      handled-Guarded w t has there before g held =
          handler.handler-protects w (apply t) g (elim (Bool-cases (g == f)) [
            | inl e ↦ let same : g ≡ f = (eq_iff g f).0 e in (t, there, rw same has)
            | inr e ↦ before g (
                sym (handler.apply-outside w t g (λ k. absurd (ground (arith, eq_iff g f)))) ∙ held)
          ])

      finalizer-Guarded :
          (w : api.World) (t : api.T)
          → object w ≡ some t
          → Guarded w
          → Guarded (finalizer api reconcile w f t).1
      unfolding finalizer
      finalizer-Guarded w t there before = elim (Option-cases (meta_name (api.object_meta t))) [
        | inl e ↦ rw (e, finalizer) before
        | inr (name, e) ↦
            rw (e, finalizer)
              (elim (Bool-cases (is_deleting (api.object_meta t))) [
                | inl d ↦ rw d (elim (Bool-cases (has_finalizer (api.object_meta t) f)) [
                  | inl has ↦ rw has (cleaned-Guarded w name t there before _ refl)
                  | inr has ↦ rw has before
                ])
                | inr d ↦ rw d (elim (Bool-cases (has_finalizer (api.object_meta t) f)) [
                  | inl has ↦ rw has (applied-Guarded _ (handled-Guarded w t has there before))
                  | inr has ↦ rw has (
                      added-Guarded _ (
                        replaced-Guarded w name _ (λ g held. (
                          before g held,
                          rw (laws.metadata-set (add_finalizer (api.object_meta t) f) t) (
                              has_finalizer-add_finalizer (api.object_meta t) f g
                                (has_of w t g there (before g held))),
                        ))))
                ])
              ])
      ]

      -- A call of `finalizer` on the resource as it stands keeps every controller's claim guarded,
      -- whatever fails on the way: if each controller that holds something for the resource was
      -- named by a finalizer of the resource, then it still is after the call. So a resource that
      -- is gone leaves nothing behind.
      pub finalizer-IsGuarded :
          (w : api.World) (t : api.T)
          → object w ≡ some t
          → IsGuarded w
          → IsGuarded (finalizer api reconcile w f t).1
      finalizer-IsGuarded w t there before = record {
        holders_named = finalizer-Guarded w t there before.holders_named;
      }
