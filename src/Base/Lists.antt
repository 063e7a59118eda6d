-- ===== src/Base/Lists.antt =====
-- Lists under Boolean tests (the methods of Rust's iterators), measured by native numbers.
use Prim.Native.Nat.{ℕ, zero, suc, ◌+◌, ◌<◌}
use mathlib.Core.Path.{◌≡◌, refl, sym, subst, ap}
use mathlib.Core.Logic.{◌⊎◌, inl, inr}
use mathlib.Core.Bool.{Bool, true, false, ◌&&◌, ◌||◌}
use mathlib.Core.Option.{Option, none, some}
use mathlib.Core.List.{List, [], ◌∷◌, ◌++◌, Memᴰ}
use native.Mathlib.Omega.{arith}
use tugboat.Base.Tests.{if◌then◌else◌, Bool-cases}

module _ {ℓ} {A : Type ℓ} where
  abbrev pub length : List A → ℕ
  length [] = 0
  length (x ∷ xs) = suc (length xs)

  abbrev pub is_empty : List A → Bool
  is_empty [] = true
  is_empty (x ∷ xs) = false

  abbrev pub any : (A → Bool) → List A → Bool
  any p [] = false
  any p (x ∷ xs) = p x || any p xs

  abbrev pub all : (A → Bool) → List A → Bool
  all p [] = true
  all p (x ∷ xs) = p x && all p xs

  abbrev pub find : (A → Bool) → List A → Option A
  find p [] = none
  find p (x ∷ xs) = if p x then some x else find p xs

  abbrev pub filter : (A → Bool) → List A → List A
  filter p [] = []
  filter p (x ∷ xs) = let rest = filter p xs in if p x then x ∷ rest else rest

  abbrev pub filter_map {κ} : {B : Type κ} → (A → Option B) → List A → List B
  filter_map f [] = []
  filter_map f (x ∷ xs) =
      let rest = filter_map f xs in elim (f x) [ none ↦ rest | some y ↦ y ∷ rest ]

  -- How many entries pass the test.
  abbrev pub count : (A → Bool) → List A → ℕ
  count p [] = 0
  count p (x ∷ xs) = let rest = count p xs in if p x then suc rest else rest

  -- `Iterator::take`.
  abbrev pub take : ℕ → List A → List A
  take zero xs = []
  take (suc n) [] = []
  take (suc n) (x ∷ xs) = x ∷ take n xs

  -- `<[T]>::first`.
  abbrev pub first : List A → Option A
  first [] = none
  first (x ∷ xs) = some x

  -- A statement about every entry, put together and from its two parts.
  pub each_cons {κ} :
      (P : A → Type κ) {x : A} (xs : List A)
      → P x
      → ((a : A) → Memᴰ a xs → P a)
      → (a : A) → Memᴰ a (x ∷ xs)
      → P a
  each_cons P xs h k a (Memᴰ.head e) = subst P (sym e) h
  each_cons P xs h k a (Memᴰ.tail m) = k a m

module _ {ℓ} {A : Type ℓ} (p : A → Bool) where
  pub any_of_mem : (xs : List A) {a : A} → Memᴰ a xs → p a ≡ true → any p xs ≡ true
  any_of_mem [] m h = elim m [ ]
  any_of_mem (x ∷ xs) (Memᴰ.head e) h = ground arith
  any_of_mem (x ∷ xs) (Memᴰ.tail m) h = ground (arith, any_of_mem xs m h)

  pub mem_of_any : (xs : List A) → any p xs ≡ true → (a : A) × Memᴰ a xs × (p a ≡ true)
  mem_of_any [] h = absurd (cc)
  mem_of_any (x ∷ xs) h = elim (Bool-cases (p x)) [
    | inl e ↦ (x, Memᴰ.head refl, e)
    | inr e ↦ let (a, m, k) = mem_of_any xs (ground arith) in (a, Memᴰ.tail m, k)
  ]

  pub all_at : (xs : List A) {a : A} → Memᴰ a xs → all p xs ≡ true → p a ≡ true
  all_at [] m h = elim m [ ]
  all_at (x ∷ xs) (Memᴰ.head e) h = ground arith
  all_at (x ∷ xs) (Memᴰ.tail m) h = all_at xs m (ground arith)

  pub all_of_each : (xs : List A) → ((a : A) → Memᴰ a xs → p a ≡ true) → all p xs ≡ true
  all_of_each [] h = refl
  all_of_each (x ∷ xs) h =
      ground (arith, h x (Memᴰ.head refl), all_of_each xs (λ a m. h a (Memᴰ.tail m)))

  pub not_all : (xs : List A) → all p xs ≡ false → (a : A) × Memᴰ a xs × (p a ≡ false)
  not_all [] h = absurd (cc)
  not_all (x ∷ xs) h = elim (Bool-cases (p x)) [
    | inl e ↦ let (a, m, k) = not_all xs (ground arith) in (a, Memᴰ.tail m, k)
    | inr e ↦ (x, Memᴰ.head refl, e)
  ]

  pub find-some : (xs : List A) {a : A} → find p xs ≡ some a → Memᴰ a xs × (p a ≡ true)
  find-some [] h = absurd (cc)
  find-some (x ∷ xs) {a} h = elim (Bool-cases (p x)) [
    | inl e ↦ (Memᴰ.head (ground arith), ground arith)
    | inr e ↦ let (m, k) = find-some xs {a = a} (ground arith) in (Memᴰ.tail m, k)
  ]

  pub find-some_of_mem :
      (xs : List A) {a : A} → Memᴰ a xs → p a ≡ true → (b : A) × (find p xs ≡ some b)
  find-some_of_mem [] m h = elim m [ ]
  find-some_of_mem (x ∷ xs) (Memᴰ.head e) h = (x, ground arith)
  find-some_of_mem (x ∷ xs) (Memᴰ.tail m) h = elim (Bool-cases (p x)) [
    | inl e ↦ (x, rw e)
    | inr e ↦ let (b, k) = find-some_of_mem xs m h in (b, rw e k)
  ]

  mem-filter_split :
      (x : A) (xs : List A) {a : A} (b : Bool)
      → p x ≡ b
      → (Memᴰ a (filter p xs) → Memᴰ a xs × (p a ≡ true))
      → Memᴰ a (if b then x ∷ filter p xs else filter p xs)
      → Memᴰ a (x ∷ xs) × (p a ≡ true)
  mem-filter_split x xs true e ih (Memᴰ.head k) = (Memᴰ.head k, rw k e)
  mem-filter_split x xs true e ih (Memᴰ.tail k) = let (n, q) = ih k in (Memᴰ.tail n, q)
  mem-filter_split x xs false e ih k = let (n, q) = ih k in (Memᴰ.tail n, q)

  pub mem-filter : (xs : List A) {a : A} → Memᴰ a (filter p xs) → Memᴰ a xs × (p a ≡ true)
  mem-filter [] m = elim m [ ]
  mem-filter (x ∷ xs) {a} m = mem-filter_split x xs (p x) refl (λ k. mem-filter xs k) m

  pub mem-filter_of : (xs : List A) {a : A} → Memᴰ a xs → p a ≡ true → Memᴰ a (filter p xs)
  mem-filter_of [] m h = elim m [ ]
  mem-filter_of (x ∷ xs) (Memᴰ.head k) h = let e : p x ≡ true = ground arith in rw e (Memᴰ.head k)
  mem-filter_of (x ∷ xs) (Memᴰ.tail m) h = elim (Bool-cases (p x)) [
    | inl e ↦ rw e (Memᴰ.tail (mem-filter_of xs m h))
    | inr e ↦ rw e (mem-filter_of xs m h)
  ]

module _ {ℓ} {A : Type ℓ} where
  pub length-append : (xs ys : List A) → length (xs ++ ys) ≡ length xs + length ys
  length-append [] ys = omega arith
  length-append (x ∷ xs) ys = omega (arith, length-append xs ys)

  pub length-filter : (p : A → Bool) (xs : List A) → length (filter p xs) ≡ count p xs
  length-filter p [] = refl
  length-filter p (x ∷ xs) = ground (arith, length-filter p xs)

  pub append-cons_one : (xs ys : List A) (x : A) → xs ++ x ∷ [] ++ ys ≡ xs ++ x ∷ ys
  append-cons_one [] ys x = refl
  append-cons_one (y ∷ xs) ys x = ap (λ l. y ∷ l) (append-cons_one xs ys x)

  pub count_mem : (p : A → Bool) (xs : List A) {a : A} → Memᴰ a xs → p a ≡ true → 0 < count p xs
  count_mem p [] m h = elim m [ ]
  count_mem p (x ∷ xs) (Memᴰ.head e) h = ground arith
  count_mem p (x ∷ xs) (Memᴰ.tail m) h = ground (arith, count_mem p xs m h)

  pub count-append : (p : A → Bool) (xs ys : List A) → count p (xs ++ ys) ≡ count p xs + count p ys
  count-append p [] ys = omega arith
  count-append p (x ∷ xs) ys = ground (arith, count-append p xs ys)

  pub mem-append : (xs ys : List A) {a : A} → Memᴰ a (xs ++ ys) → Memᴰ a xs ⊎ Memᴰ a ys
  mem-append [] ys m = inr m
  mem-append (x ∷ xs) ys (Memᴰ.head e) = inl (Memᴰ.head e)
  mem-append (x ∷ xs) ys (Memᴰ.tail m) = elim (mem-append xs ys m) [
    | inl k ↦ inl (Memᴰ.tail k)
    | inr k ↦ inr k
  ]
