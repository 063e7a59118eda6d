-- ===== src/Manifests/Resource/Finalizers.antt =====
-- Adding and removing a finalizer leaves the others alone.
use tugboat.Base.{
  ◌≡◌, ◌≢◌, refl, inl, inr, String, Bool, true, false, not, Option, none, some, List, [], ◌∷◌, ◌++◌,
  arith, eq_iff, ◌==◌, Bool-cases,
}
use tugboat.Base.Lists.{any, filter}
use tugboat.Manifests.Meta.{ObjectMeta}
use tugboat.Manifests.Resource.{has_finalizer, add_finalizer, remove_finalizer}

any-append : (p : String → Bool) (xs ys : List String) → any p xs ≡ true → any p (xs ++ ys) ≡ true
any-append p [] ys h = absurd (cc)
any-append p (x ∷ xs) ys h = ground (arith, any-append p xs ys)

any-filter_other :
    (f g : String) (xs : List String)
    → g ≢ f
    → any (λ item. item == g) xs ≡ true
    → any (λ item. item == g) (filter (λ item. not (item == f)) xs) ≡ true
any-filter_other f g [] n h = absurd (cc)
any-filter_other f g (x ∷ xs) n h = elim (Bool-cases (x == f)) [
  | inl e ↦
      let same : x ≡ f = (eq_iff x f).0 e in
      let other : (x == g) ≡ false = ground (arith, eq_iff x g) in
      rw e (any-filter_other f g xs n (ground arith))
  | inr e ↦ rw e (elim (Bool-cases (x == g)) [
    | inl k ↦ rw k refl
    | inr k ↦ rw k (any-filter_other f g xs n (ground arith))
  ])
]

-- Adding a finalizer keeps the others.
pub has_finalizer-add_finalizer :
    (meta : Option ObjectMeta) (f g : String)
    → has_finalizer meta g ≡ true
    → has_finalizer (add_finalizer meta f) g ≡ true
unfolding add_finalizer
has_finalizer-add_finalizer none f g h = absurd (cc)
has_finalizer-add_finalizer (some meta) f g h =
    elim (Bool-cases (any (λ item. item == f) meta.finalizers)) [
      | inl e ↦ rw e h
      | inr e ↦ rw e (any-append (λ item. item == g) meta.finalizers (f ∷ []) h)
    ]

-- Removing one keeps the others.
pub has_finalizer-remove_finalizer :
    (meta : Option ObjectMeta) (f g : String)
    → g ≢ f
    → has_finalizer meta g ≡ true
    → has_finalizer (remove_finalizer meta f) g ≡ true
unfolding remove_finalizer
has_finalizer-remove_finalizer none f g n h = absurd (cc)
has_finalizer-remove_finalizer (some meta) f g n h = any-filter_other f g meta.finalizers n h
