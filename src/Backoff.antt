-- ===== src/Backoff.antt =====
-- `calculateBackoffInterval` of the four services in frontend/src/services, which have one text.
-- The factor is a fraction, 1.5 by default, and the arithmetic is exact: a product of doubles is
-- exact too until it passes the cap, for the default factor and intervals.
pub mod Bounds
pub mod Growth
pub mod Pace
use distributed_file_storage.Prelude.{
  ℕ, zero, suc, ◌+◌, ◌*◌, ◌/◌, ◌^◌, min, Bool, ◌==◌, if◌then◌else◌,
}

-- `backoffFactor` as num / den
pub record Factor : Type 0 where
  pub num : ℕ
  pub den : ℕ

-- `1.5`
abbrev pub default_factor : Factor
default_factor = record { num = 3; den = 2 }

-- `Math.round(a / b)`: the nearest integer, a half rounded up.
unfoldable pub round_div : ℕ → ℕ → ℕ
round_div a b = (2 * a + b) / (2 * b)

-- `Math.round(baseIntervalMs * Math.pow(backoffFactor, failures))`
unfoldable pub exponential_delay : ℕ → Factor → ℕ → ℕ
exponential_delay base f failures = round_div (base * f.num ^ failures) (f.den ^ failures)

unfoldable pub backoff_interval : ℕ → ℕ → Factor → ℕ → ℕ
backoff_interval base most f failures =
    if failures == 0 then base else min (exponential_delay base f failures) most
