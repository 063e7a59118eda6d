-- ===== src/Base/Float.antt =====
-- The type f64, as far as the program uses it: a parameter of what is modelled over it. Its
-- arithmetic is that of the processor, so nothing of it is defined here.
use tugboat.Base.{ℕ, String, Option, Bool, ◌*◌, ◌/◌, min, leb}
use tugboat.Base.Int.{ℤ, pos}
use tugboat.Base.Text.{parse_u64, u64_max, i64_max}
use mathlib.Core.Option

pub record F64 : Type 1 where
  pub Carrier : Type 0
  -- `str::parse::<f64>`.
  pub parse_f64 : String → Option Carrier
  -- `n as f64`, which is also how a literal such as 100.0 is written here.
  pub of_u64 : ℕ → Carrier
  pub mul : Carrier → Carrier → Carrier
  pub div : Carrier → Carrier → Carrier
  -- `a >= b`.
  pub ge : Carrier → Carrier → Bool
  -- `as u64` and `as i64`, which saturate.
  pub to_u64 : Carrier → ℕ
  pub to_i64 : Carrier → ℤ

-- An instance for tests: exact fractions, whose texts are whole numbers.
abbrev pub fractions : F64
fractions = record {
  Carrier = ℕ × ℕ;
  parse_f64 = λ s. Option.map (λ n. (n, 1)) (parse_u64 s);
  of_u64 = λ n. (n, 1);
  mul = λ x y. (x.0 * y.0, x.1 * y.1);
  div = λ x y. (x.0 * y.1, x.1 * y.0);
  ge = λ x y. leb (y.0 * x.1) (x.0 * y.1);
  to_u64 = λ x. min (x.0 / x.1) u64_max;
  to_i64 = λ x. pos (min (x.0 / x.1) i64_max);
}
