-- ===== src/Manifests/Names.antt =====
-- tugboat-resources/src/validators/name.rs: which names a resource may have. The expression of
-- NAME_REGEX, `^[a-z0-9]([-a-z0-9]*[a-z0-9])?$`, is written out as a test.
use Prim.Native.Char.{code}
use Prim.Native.String.{len}
use tugboat.Base.{
  ℕ, ◌≡◌, refl, String, Bool, true, false, not, ◌&&◌, ◌||◌, arith, leb, eqb, eq_iff, if◌then◌else◌,
  inl, inr, Bool-cases,
}
use tugboat.Base.Text.{is_blank}
use tugboat.Base.Affixes.{has_code}

abbrev is_alphanumeric : ℕ → Bool
is_alphanumeric c = (leb b'a' c && leb c b'z') || (leb b'0' c && leb c b'9')

-- What follows the first character: letters, digits and dashes, the last one no dash.
pub matches_rest : String → Bool
matches_rest String.[] = true
matches_rest (String.◌∷◌ c s) =
    let rest = matches_rest s in
    if is_blank s
    then is_alphanumeric (code c)
    else (is_alphanumeric (code c) || eqb (code c) b'-') && rest

unfoldable pub matches_name : String → Bool
unfolding matches_rest
matches_name String.[] = false
matches_name (String.◌∷◌ c s) = is_alphanumeric (code c) && matches_rest s

unfoldable pub is_valid_name : String → Bool
unfolding matches_name
is_valid_name name = not (is_blank name) && leb (len name) 253 && matches_name name

slash-matches_rest : (s : String) → matches_rest s ≡ true → has_code b'/' s ≡ false
unfolding matches_rest
slash-matches_rest String.[] h = refl
slash-matches_rest (String.◌∷◌ c s) h = elim (Bool-cases (is_blank s)) [
  | inl e ↦
      let empty : s ≡ "" = (eq_iff s "").0 e in
      let none_left : has_code b'/' s ≡ false = rw empty refl in
      let last : is_alphanumeric (code c) ≡ true = rw e at h in ground arith
  | inr e ↦
      let more : ((is_alphanumeric (code c) || eqb (code c) b'-') && matches_rest s) ≡ true =
        rw e at h in
      ground (arith, slash-matches_rest s)
]

-- A valid name has no slash.
pub has_code-is_valid_name :
    (name : String) → is_valid_name name ≡ true → has_code b'/' name ≡ false
unfolding is_valid_name matches_name
has_code-is_valid_name String.[] h = refl
has_code-is_valid_name (String.◌∷◌ c s) h = ground (arith, slash-matches_rest s)
