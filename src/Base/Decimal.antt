-- ===== src/Base/Decimal.antt =====
-- `i64::to_string`, and that `str::parse` reads it back.
use Prim.Native.Char.{Char, code}
use Prim.Native.Nat.{ℕ, zero, suc, ◌+◌, ◌-◌, ◌*◌, ◌/◌, ◌%◌, ◌≤◌, ◌<◌}
use Prim.Native.String.{String}
use mathlib.Core.Path.{◌≡◌, refl, sym, ◌∙◌, ap}
use mathlib.Core.Bool.{true, false, ◌&&◌}
use mathlib.Core.Option.{some}
use mathlib.Core.Logic.{inl, inr}
use native.Mathlib.Omega.{arith}
use tugboat.Base.Tests.{ltb, leb, eqb, if◌then◌else◌, Bool-cases}
use tugboat.Base.Int.{ℤ, pos, negsuc}
use tugboat.Base.Text.{parse_digits, parse_number, parse_i64, i64_max}

digit_char : ℕ → Char
digit_char zero = "0"
digit_char (suc zero) = "1"
digit_char (suc (suc zero)) = "2"
digit_char (suc (suc (suc zero))) = "3"
digit_char (suc (suc (suc (suc zero)))) = "4"
digit_char (suc (suc (suc (suc (suc zero))))) = "5"
digit_char (suc (suc (suc (suc (suc (suc zero)))))) = "6"
digit_char (suc (suc (suc (suc (suc (suc (suc zero))))))) = "7"
digit_char (suc (suc (suc (suc (suc (suc (suc (suc zero)))))))) = "8"
digit_char (suc (suc (suc (suc (suc (suc (suc (suc (suc n))))))))) = "9"

code-digit_char : (d : ℕ) → d < 10 → code (digit_char d) ≡ b'0' + d
unfolding digit_char
code-digit_char zero h = refl
code-digit_char (suc zero) h = refl
code-digit_char (suc (suc zero)) h = refl
code-digit_char (suc (suc (suc zero))) h = refl
code-digit_char (suc (suc (suc (suc zero)))) h = refl
code-digit_char (suc (suc (suc (suc (suc zero))))) h = refl
code-digit_char (suc (suc (suc (suc (suc (suc zero)))))) h = refl
code-digit_char (suc (suc (suc (suc (suc (suc (suc zero))))))) h = refl
code-digit_char (suc (suc (suc (suc (suc (suc (suc (suc zero)))))))) h = refl
code-digit_char (suc (suc (suc (suc (suc (suc (suc (suc (suc zero))))))))) h = refl
code-digit_char (suc (suc (suc (suc (suc (suc (suc (suc (suc (suc n)))))))))) h =
    absurd (omega arith)

-- The decimal digits of a number in front of a text; each round writes one digit.
unfoldable pub write_digits : ℕ → ℕ → String → String
unfolding digit_char
write_digits zero n out = out
write_digits (suc fuel) n out =
    let more = write_digits fuel (n / 10) (String.◌∷◌ (digit_char (n % 10)) out) in
    if ltb n 10 then String.◌∷◌ (digit_char n) out else more

-- `n` rounds are enough for the digits of n, and one for 0.
unfoldable pub to_string_ℕ : ℕ → String
unfolding write_digits
to_string_ℕ n = write_digits (suc n) n ""

unfoldable pub to_string : ℤ → String
unfolding to_string_ℕ
to_string (pos n) = to_string_ℕ n
to_string (negsuc n) = String.◌∷◌ "-" (to_string_ℕ (suc n))

parse-digit :
    (most n d : ℕ) (out : String)
    → d < 10
    → n * 10 + d ≤ most
    → parse_digits most n (String.◌∷◌ (digit_char d) out) ≡ parse_digits most (n * 10 + d) out
unfolding parse_digits
parse-digit most n d out h fits =
    let value : b'0' + d - b'0' ≡ d = omega arith in
    let accepted : (leb b'0' (b'0' + d) && leb (b'0' + d) b'9' && leb (n * 10 + d) most) ≡ true =
      ground arith in
    rw (code-digit_char d h, value, accepted) refl

parse-write_digits :
    (most fuel n : ℕ) (out : String)
    → n < fuel
    → n ≤ most
    → parse_digits most 0 (write_digits fuel n out) ≡ parse_digits most n out
unfolding write_digits
parse-write_digits most zero n out h fits = absurd (omega arith)
parse-write_digits most (suc fuel) n out h fits = elim (Bool-cases (ltb n 10)) [
  | inl e ↦
      let first = parse-digit most 0 n out (ground arith) (omega arith) in
      let same : 0 * 10 + n ≡ n = omega arith in
      rw e (first ∙ ap (λ m. parse_digits most m out) same)
  | inr e ↦
      let rest =
        parse-write_digits most fuel (n / 10) (String.◌∷◌ (digit_char (n % 10)) out) (ground arith)
          (omega arith) in
      let whole : n / 10 * 10 + n % 10 ≡ n = omega arith in
      let last = parse-digit most (n / 10) (n % 10) out (omega arith) (omega arith) in
      rw e (rest ∙ last ∙ ap (λ m. parse_digits most m out) whole)
]

-- The first character written is a digit.
write_digits-cons :
    (fuel n : ℕ) (out : String)
    → n < fuel
    → (d : ℕ) × (s : String) × (d < 10) × (write_digits fuel n out ≡ String.◌∷◌ (digit_char d) s)
unfolding write_digits
write_digits-cons zero n out h = absurd (omega arith)
write_digits-cons (suc fuel) n out h = elim (Bool-cases (ltb n 10)) [
  | inl e ↦ (n, out, ground arith, rw e refl)
  | inr e ↦
      let (d, s, k, same) =
        write_digits-cons fuel (n / 10) (String.◌∷◌ (digit_char (n % 10)) out) (ground arith) in
      (d, s, k, rw e same)
]

-- A number that i64 holds is read back from its print.
pub parse_i64-to_string : (n : ℕ) → n ≤ i64_max → parse_i64 (to_string (pos n)) ≡ some (pos n)
unfolding to_string to_string_ℕ parse_i64 parse_number parse_digits
parse_i64-to_string n h =
    let (d, s, k, same) = write_digits-cons (suc n) n "" (omega arith) in
    let read : parse_digits i64_max 0 (String.◌∷◌ (digit_char d) s) ≡ some n =
      ap (parse_digits i64_max 0) (sym same)
      ∙ parse-write_digits i64_max (suc n) n "" (omega arith) h in
    let minus : eqb (b'0' + d) b'-' ≡ false = ground arith in
    let plus : eqb (b'0' + d) b'+' ≡ false = ground arith in
    rw (same, code-digit_char d k, minus, plus, read) refl
