-- ===== src/Client/Backoff/Growth.antt =====
-- The delays grow by the factor up to the greatest one.
use tugboat.Base.{
  ℕ, zero, suc, ◌≡◌, refl, ◌∙◌, inl, inr, ◌*◌, ◌^◌, ◌≤◌, ◌<◌, min, max, arith, false, eqb,
  Bool-cases, if◌then◌else◌,
}
use native.Mathlib.Nat.{pow-zero, pow-succ', one-le-pow, mul-le-mul_left}
use tugboat.Base.Text.{u64_max}
use tugboat.Client.Backoff.{BackoffConfig, u128_max, delay_loop, delay_for}

-- One more round multiplies by the factor once more.
one_more : (m f n : ℕ) → m * f ^ suc n ≡ m * f * f ^ n
one_more m f n = rw (pow-succ' f n) (omega arith)

no_smaller : (m f n : ℕ) → 0 < f → m * f ≤ m * f ^ suc n
no_smaller m f n h =
    let big : m * f * 1 ≤ m * f * f ^ n = mul-le-mul_left (m * f) (one-le-pow n f h) in
    rw (one_more m f n) (omega arith)

next_round : (f M m : ℕ) → M ≤ u128_max → min (min (m * f) u128_max) M ≡ min (m * f) M
next_round f M m fits = omega arith

delay_loop-eq :
    (f M : ℕ) → 0 < f → M ≤ u128_max → (n m : ℕ) → delay_loop f M (suc n) m ≡ min (m * f ^ suc n) M
unfolding delay_loop
delay_loop-eq f M pos fits zero m =
    let once : m * f ^ suc zero ≡ m * f = one_more m f zero ∙ rw (pow-zero f) (omega arith) in
    rw (once, next_round f M m fits) (ground arith)
delay_loop-eq f M pos fits (suc n) m =
    let ih = delay_loop-eq f M pos fits n (min (m * f) M) in
    let grows = no_smaller m f (suc n) pos in
    let step = one_more m f (suc n) in
    elim (Bool-cases (eqb (min (m * f) M) M)) [
      | inl e ↦
          let full : min (m * f) M ≡ M = ground arith in
          let enough : min (m * f ^ suc (suc n)) M ≡ M = omega arith in
          rw (next_round f M m fits, e, enough) full
      | inr e ↦
          let below : min (m * f) M ≡ m * f = ground arith in
          let same : min (m * f) M * f ^ suc n ≡ m * f ^ suc (suc n) = rw (below, step) refl in
          rw (next_round f M m fits, e) (rw same at ih)
    ]

-- The delay after a number of failures is the initial one times the factor for each of them, cut
-- off at the greatest delay and at what u64 holds; each of the three settings counts as at least 1.
-- Without a failure it is the initial delay, whatever the greatest one is. The settings are ones
-- that u128 holds.
pub delay_for-eq :
    (config : BackoffConfig) (attempt : ℕ)
    → config.max_delay ≤ u128_max
    → delay_for config attempt ≡ (
        let first = max config.initial_delay 1 in
        let grown = min (first * max config.factor 1 ^ attempt) (max config.max_delay 1) in
        min (if eqb attempt 0 then first else grown) u64_max)
unfolding delay_for delay_loop
delay_for-eq config zero fits = refl
delay_for-eq config (suc n) fits =
    let failed : eqb (suc n) 0 ≡ false = ground arith in
    rw
      (
        failed,
        delay_loop-eq (max config.factor 1) (max config.max_delay 1) (omega arith) (omega arith) n
            (max config.initial_delay 1),
      )
      refl
