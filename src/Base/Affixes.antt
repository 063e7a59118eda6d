-- ===== src/Base/Affixes.antt =====
-- Texts that are put together, and taken apart at the front.
use Prim.Native.Char.{code}
use Prim.Native.String
use Prim.Native.Nat.{ℕ}
use Prim.Native.String.{String}
use mathlib.Core.Path.{◌≡◌, refl, ap, ◌∙◌}
use mathlib.Core.Bool.{Bool, true, false, ◌||◌}
use mathlib.Core.Option.{some}
use native.Mathlib.Omega.{arith}
use text.Mathlib.TextLemmas.{nil-append, cons-append}
use text.Mathlib.TextEquality.{Char-path}
use tugboat.Base.Options.{is_some}
use tugboat.Base.Tests.{eqb}
use tugboat.Base.Text.{strip_prefix, split_once}

-- The text has the character of this code.
abbrev pub has_code : ℕ → String → Bool
has_code n String.[] = false
has_code n (String.◌∷◌ c s) = eqb (code c) n || has_code n s

pub strip_prefix-append : (p s : String) → strip_prefix (String.◌++◌ p s) p ≡ some s
unfolding strip_prefix
strip_prefix-append String.[] s = rw (nil-append s) refl
strip_prefix-append (String.◌∷◌ c p) s =
    rw (cons-append c p s) (ground (arith, strip_prefix-append p s))

pub split_once-append :
    (n : ℕ) (s : String)
    → has_code n s ≡ false
    → (t r : String) → split_once r n ≡ some ("", t)
    → split_once (String.◌++◌ s r) n ≡ some (s, t)
unfolding split_once
split_once-append n String.[] h t r e = rw (nil-append r) e
split_once-append n (String.◌∷◌ c s) h t r e =
    let rest = split_once-append n s (ground arith) t r e in
    rw (cons-append c s r) (ground (arith, rest))

pub strip_prefix-blank : (s : String) → strip_prefix s "" ≡ some s
unfolding strip_prefix
strip_prefix-blank s = refl

-- What two texts begin with in common does not count.
pub strip_prefix_common :
    (p s t : String) → strip_prefix (String.◌++◌ p s) (String.◌++◌ p t) ≡ strip_prefix s t
unfolding strip_prefix
strip_prefix_common String.[] s t = rw (nil-append s, nil-append t) refl
strip_prefix_common (String.◌∷◌ c p) s t =
    rw (cons-append c p s, cons-append c p t) (ground (arith, strip_prefix_common p s t))

slash-cons : (s : String) → String.◌++◌ "/" s ≡ String.◌∷◌ "/" s
slash-cons s = cons-append "/" "" s ∙ ap (λ t. String.◌∷◌ "/" t) (nil-append s)

-- A part without a slash, with a slash behind it, is a prefix of another such part only if the two
-- are the same.
pub strip_prefix_part :
    (s t rest : String)
    → has_code b'/' s ≡ false
    → has_code b'/' t ≡ false
    → is_some
        (strip_prefix (String.◌++◌ s (String.◌++◌ "/" rest)) (String.◌++◌ t (String.◌++◌ "/" "")))
      ≡ true
    → s ≡ t
unfolding strip_prefix
strip_prefix_part String.[] String.[] rest a b h = refl
strip_prefix_part String.[] (String.◌∷◌ d t) rest a b h =
    let opened = rw (nil-append (String.◌++◌ "/" rest), slash-cons rest, cons-append d t _) at h in
    absurd (ground arith)
strip_prefix_part (String.◌∷◌ c s) String.[] rest a b h =
    let opened = rw (nil-append (String.◌++◌ "/" ""), slash-cons "", cons-append c s _) at h in
    absurd (ground arith)
strip_prefix_part (String.◌∷◌ c s) (String.◌∷◌ d t) rest a b h =
    let opened = rw (cons-append c s _, cons-append d t _) at h in
    let same : code c ≡ code d = ground arith in
    let more = strip_prefix_part s t rest (ground arith) (ground arith) (ground arith) in
    λ i. String.◌∷◌ (Char-path c d same i) (more i)
