-- ===== src/Base/Text.antt =====
-- The methods of Rust's `str` that the source uses: trimming, suffixes, ASCII case, numbers.
use Prim.Native.Char.{code}
use Prim.Native.Nat.{ℕ, ◌+◌, ◌-◌, ◌*◌, ◌^◌}
use Prim.Native.String.{String}
use mathlib.Core.Path.{◌≡◌, refl}
use mathlib.Core.Bool.{Bool, true, false, ◌&&◌, ◌||◌}
use mathlib.Core.Option.{Option, none, some}
use mathlib.Core.Option
use text.Mathlib.Text.{◌==◌}
use tugboat.Base.Tests.{leb, eqb, if◌then◌else◌}
use tugboat.Base.Int.{ℤ, pos, negsuc, sub_ℕ}

-- `str::is_empty`.
abbrev pub is_blank : String → Bool
is_blank s = s == ""

-- The property White_Space of Unicode, by which `str::trim` works.
pub is_whitespace : ℕ → Bool
is_whitespace c =
    (leb 0x9 c && leb c 0xd)
    || eqb c 0x20
    || eqb c 0x85
    || eqb c 0xa0
    || eqb c 0x1680
    || (leb 0x2000 c && leb c 0x200a)
    || eqb c 0x2028
    || eqb c 0x2029
    || eqb c 0x202f
    || eqb c 0x205f
    || eqb c 0x3000

trim_start : String → String
trim_start String.[] = ""
trim_start (String.◌∷◌ c s) =
    let rest = trim_start s in if is_whitespace (code c) then rest else String.◌∷◌ c s

trim_end : String → String
trim_end String.[] = ""
trim_end (String.◌∷◌ c s) =
    let rest = trim_end s in
    if is_blank rest && is_whitespace (code c) then "" else String.◌∷◌ c rest

unfoldable pub trim : String → String
unfolding trim_start trim_end is_whitespace
trim s = trim_end (trim_start s)

-- `str::strip_suffix`.
unfoldable pub strip_suffix : String → String → Option String
strip_suffix String.[] suffix = if is_blank suffix then some "" else none
strip_suffix (String.◌∷◌ c s) suffix =
    let rest = Option.map (String.◌∷◌ c) (strip_suffix s suffix) in
    if String.◌∷◌ c s == suffix then some "" else rest

-- `str::strip_prefix`.
unfoldable pub strip_prefix : String → String → Option String
strip_prefix s String.[] = some s
strip_prefix String.[] (String.◌∷◌ d p) = none
strip_prefix (String.◌∷◌ c s) (String.◌∷◌ d p) =
    if eqb (code c) (code d) then strip_prefix s p else none

-- `str::split_once` at one character.
unfoldable pub split_once : String → ℕ → Option (String × String)
split_once String.[] sep = none
split_once (String.◌∷◌ c s) sep =
    let rest = Option.map (λ (p : String × String). (String.◌∷◌ c p.0, p.1)) (split_once s sep) in
    if eqb (code c) sep then some ("", s) else rest

abbrev to_ascii_lowercase : ℕ → ℕ
to_ascii_lowercase c = if leb b'A' c && leb c b'Z' then c + 32 else c

unfoldable pub eq_ignore_ascii_case : String → String → Bool
eq_ignore_ascii_case String.[] String.[] = true
eq_ignore_ascii_case String.[] (String.◌∷◌ d t) = false
eq_ignore_ascii_case (String.◌∷◌ c s) String.[] = false
eq_ignore_ascii_case (String.◌∷◌ c s) (String.◌∷◌ d t) =
    eqb (to_ascii_lowercase (code c)) (to_ascii_lowercase (code d)) && eq_ignore_ascii_case s t

abbrev pub u64_max : ℕ
u64_max = 2 ^ 64 - 1

abbrev pub i64_max : ℕ
i64_max = 2 ^ 63 - 1

-- Decimal digits, at least one, up to a greatest value.
unfoldable pub parse_digits : ℕ → ℕ → String → Option ℕ
parse_digits most acc String.[] = some acc
parse_digits most acc (String.◌∷◌ c s) =
    let next = acc * 10 + (code c - b'0') in
    let rest = parse_digits most next s in
    if leb b'0' (code c) && leb (code c) b'9' && leb next most then rest else none

unfoldable pub parse_number : ℕ → String → Option ℕ
parse_number most String.[] = none
parse_number most (String.◌∷◌ c s) = parse_digits most 0 (String.◌∷◌ c s)

-- `str::parse::<u64>`.
unfoldable pub parse_u64 : String → Option ℕ
unfolding parse_number parse_digits
parse_u64 String.[] = none
parse_u64 (String.◌∷◌ c s) = parse_number u64_max (if eqb (code c) b'+' then s else String.◌∷◌ c s)

-- `str::parse::<i64>`.
unfoldable pub parse_i64 : String → Option ℤ
unfolding parse_number parse_digits
parse_i64 String.[] = none
parse_i64 (String.◌∷◌ c s) =
    if eqb (code c) b'-'
    then Option.map (sub_ℕ 0) (parse_number (i64_max + 1) s)
    else Option.map pos (parse_number i64_max (if eqb (code c) b'+' then s else String.◌∷◌ c s))

text_tests :
    (trim "  a b\n" ≡ "a b")
    × (strip_suffix "12Gi" "Gi" ≡ some "12")
    × (strip_suffix "i" "Gi" ≡ none)
    × (parse_u64 "+42" ≡ some 42)
    × (parse_u64 "18446744073709551616" ≡ none)
    × (parse_i64 "-9223372036854775808" ≡ some (negsuc 9223372036854775807))
    × (eq_ignore_ascii_case "BriDge" "bridge" ≡ true)
    × (split_once "ns:name:x" b':' ≡ some ("ns", "name:x"))
    × (strip_prefix "system:x" "system:" ≡ some "x")
unfolding trim strip_suffix parse_u64 parse_i64 eq_ignore_ascii_case split_once strip_prefix
text_tests = (refl, refl, refl, refl, refl, refl, refl, refl, refl)
