-- ===== src/Client/Backoff.antt =====
-- tugboat-client/src/runtime/backoff.rs: how long to wait after failures. A Duration is its number of
-- milliseconds, a u128 as `Duration::as_millis` gives it.
pub mod Growth
use tugboat.Base.{ℕ, zero, suc, ◌-◌, ◌*◌, ◌^◌, min, max, eqb, if◌then◌else◌}
use tugboat.Base.Text.{u64_max}

abbrev pub u128_max : ℕ
u128_max = 2 ^ 128 - 1

pub record BackoffConfig : Type 0 where
  pub initial_delay : ℕ
  pub max_delay : ℕ
  pub factor : ℕ

-- The `for` loop, with the rounds that are left.
unfoldable pub delay_loop : ℕ → ℕ → ℕ → ℕ → ℕ
delay_loop factor max_millis zero millis = millis
delay_loop factor max_millis (suc rounds) millis =
    let next = min (min (millis * factor) u128_max) max_millis in
    let rest = delay_loop factor max_millis rounds next in
    if eqb next max_millis then next else rest

unfoldable pub delay_for : BackoffConfig → ℕ → ℕ
unfolding delay_loop
delay_for config attempt =
    min
      (delay_loop (max config.factor 1) (max config.max_delay 1) attempt
        (max config.initial_delay 1))
      u64_max

-- `BackoffConfig::default`.
abbrev pub default_backoff : BackoffConfig
default_backoff = record { initial_delay = 1000; max_delay = 128000; factor = 2 }
