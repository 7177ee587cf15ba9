-- ===== src/Backoff/Growth.antt =====
-- How many failures in a row it takes to reach the maximum.
use native.Mathlib.Nat.{
  pow-suc, one-le-pow, mul-le-mul_left, mul-le-mul, mul-le-mul_right, le_of_mul-le-mul_left,
  le_trans,
}
use native.Mathlib.Numerals.{unary_clauses}
use distributed_file_storage.Prelude.{ℕ, zero, suc, ◌+◌, ◌*◌, ◌^◌, ◌≤◌, ◌<◌, ◌≡◌, arith}
use distributed_file_storage.Backoff.{Factor, exponential_delay, backoff_interval}
use distributed_file_storage.Backoff.Bounds.{round_div-ge}

-- Bernoulli's inequality for the fraction num / den, multiplied out.
pow_growth : (p q n : ℕ) → q < p → q ^ n * (q + n) ≤ q * p ^ n
pow_growth p q zero h = simp unary_clauses (omega arith)
pow_growth p q (suc n) h =
    let step = mul-le-mul (pow_growth p q n h) h in
    rw (pow-suc p n, pow-suc q n) (omega (arith, step))

-- One factor over one is enough for the delay to pass any bound.
exponential_delay-ge :
    (base most : ℕ) (f : Factor) (n : ℕ)
    → 0 < base
    → 0 < f.den
    → f.den < f.num
    → f.den * most ≤ n
    → most ≤ exponential_delay base f n
unfolding exponential_delay
exponential_delay-ge base most f n pb pd grows h =
    round_div-ge (base * f.num ^ n) (f.den ^ n) most (one-le-pow n f.den pd)
      (le_trans reached (omega (arith, mul-le-mul_right (f.num ^ n) pb)))
  where
    scaled : f.den * (most * f.den ^ n) ≤ f.den * f.num ^ n
    scaled = omega (arith, pow_growth f.num f.den n grows, mul-le-mul_left (f.den ^ n) h)

    reached : most * f.den ^ n ≤ f.num ^ n
    reached = le_of_mul-le-mul_left scaled pd

-- With a factor over one the interval is exactly the maximum from a computable number of failures
-- on, so the retries of an unreachable backend settle at the configured pace.
pub backoff_interval_saturates :
    (base most : ℕ) (f : Factor) (n : ℕ)
    → 0 < base
    → 0 < f.den
    → f.den < f.num
    → 0 < n
    → f.den * most ≤ n
    → backoff_interval base most f n ≡ most
unfolding backoff_interval
backoff_interval_saturates base most f n pb pd grows pn h =
    ground (arith, exponential_delay-ge base most f n pb pd grows h)
