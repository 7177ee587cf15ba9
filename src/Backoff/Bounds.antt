-- ===== src/Backoff/Bounds.antt =====
-- The range of the backoff interval, and how it moves with the number of failures.
use native.Mathlib.Nat.{
  pow-suc, pow-zero, one-le-pow, mul-le-mul_left, le-div_iff_mul-le, le_of_mul-le-mul_left,
  le_trans, le_refl, div-mul-le_self,
}
use native.Mathlib.Decide.{dec_le}
use distributed_file_storage.Prelude.{ℕ, zero, suc, ◌+◌, ◌*◌, ◌/◌, ◌^◌, ◌≤◌, ◌<◌, min, ◌≡◌, arith}
use distributed_file_storage.Backoff.{Factor, round_div, exponential_delay, backoff_interval}

-- Rounding a fraction that is at least a whole number gives at least that number.
pub round_div-ge : (a b q : ℕ) → 0 < b → q * b ≤ a → q ≤ round_div a b
unfolding round_div
round_div-ge a b q pos h = (le-div_iff_mul-le {k = 2 * b} (omega arith)).1 (grind arith)

-- A fraction that grows does not round to less.
pub round_div_mono : (a b c d : ℕ) → 0 < b → 0 < d → a * d ≤ c * b → round_div a b ≤ round_div c d
unfolding round_div
round_div_mono a b c d pb pd h =
    (le-div_iff_mul-le {k = 2 * d} (omega arith)).1 (le_of_mul-le-mul_left {k = b} scaled pb)
  where
    q : ℕ
    q = (2 * a + b) / (2 * b)

    rounded : d * (q * (2 * b)) ≤ d * (2 * a + b)
    rounded = mul-le-mul_left d (div-mul-le_self (2 * a + b) (2 * b))

    scaled : b * (q * (2 * d)) ≤ b * (2 * c + d)
    scaled = omega (arith, rounded)

-- With a factor of at least one the delay grows with each failure.
exponential_delay_step :
    (base : ℕ) (f : Factor) (n : ℕ)
    → 0 < f.den
    → f.den ≤ f.num
    → exponential_delay base f n ≤ exponential_delay base f (suc n)
unfolding exponential_delay
exponential_delay_step base f n pos grows =
    round_div_mono (base * f.num ^ n) (f.den ^ n) (base * f.num ^ suc n) (f.den ^ suc n)
      (one-le-pow n f.den pos) (one-le-pow (suc n) f.den pos)
      (rw (pow-suc f.num n, pow-suc f.den n) scaled)
  where
    base_step : base * f.num ^ n * f.den ^ n * f.den ≤ base * f.num ^ n * f.den ^ n * f.num
    base_step = mul-le-mul_left (base * f.num ^ n * f.den ^ n) grows

    scaled : base * f.num ^ n * (f.den ^ n * f.den) ≤ base * (f.num ^ n * f.num) * f.den ^ n
    scaled = omega (arith, base_step)

exponential_delay_mono :
    (base : ℕ) (f : Factor) (m n : ℕ)
    → 0 < f.den
    → f.den ≤ f.num
    → m ≤ n
    → exponential_delay base f m ≤ exponential_delay base f n
exponential_delay_mono base f zero zero pos grows h = le_refl _
exponential_delay_mono base f (suc m) zero pos grows h = elim h [ ]
exponential_delay_mono base f m (suc n) pos grows h = elim (dec_le m n) [
  | yes below ↦
      le_trans (exponential_delay_mono base f m n pos grows below)
        (exponential_delay_step base f n pos grows)
  | no above ↦ let same : m ≡ suc n = omega arith in rw same (le_refl _)
]

exponential_delay_zero : (base : ℕ) (f : Factor) → 0 < f.den → base ≤ exponential_delay base f 0
unfolding exponential_delay
exponential_delay_zero base f pos =
    round_div-ge (base * f.num ^ 0) (f.den ^ 0) base (one-le-pow 0 f.den pos)
      (rw (pow-zero f.num, pow-zero f.den) (le_refl _))

-- After a failure the interval never passes the configured maximum, whatever the factor.
pub backoff_interval-le-max :
    (base most : ℕ) (f : Factor) (n : ℕ) → 0 < n → backoff_interval base most f n ≤ most
unfolding backoff_interval
backoff_interval-le-max base most f n h = ground arith

-- With a factor of at least one no interval is shorter than the base interval or the maximum,
-- whichever is less.
pub backoff_interval-ge :
    (base most : ℕ) (f : Factor) (n : ℕ)
    → 0 < f.den
    → f.den ≤ f.num
    → min base most ≤ backoff_interval base most f n
unfolding backoff_interval
backoff_interval-ge base most f n pos grows = ground (
  arith,
  exponential_delay_zero base f pos,
  exponential_delay_mono base f 0 n pos grows (omega arith),
)

-- A longer run of failures never shortens the interval, when the base lies within the maximum.
pub backoff_interval_mono :
    (base most : ℕ) (f : Factor) (m n : ℕ)
    → 0 < f.den
    → f.den ≤ f.num
    → base ≤ most
    → m ≤ n
    → backoff_interval base most f m ≤ backoff_interval base most f n
unfolding backoff_interval
backoff_interval_mono base most f m n pos grows within h = ground (
  arith,
  exponential_delay_zero base f pos,
  exponential_delay_mono base f 0 n pos grows (omega arith),
  exponential_delay_mono base f m n pos grows h,
)
