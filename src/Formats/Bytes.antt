-- ===== src/Formats/Bytes.antt =====
-- The sizes that `formatBytes` of frontend/src/tokens/index.ts shows. The text is the program's for sizes below
-- 2^53, so that the quotient by a power of 1024 is exact, and for at most 11 decimals, so that the number has at
-- most 15 digits and `parseFloat` prints those of `toFixed`; every call of the program asks for 2. With more
-- decimals a double loses digits, and with more than 100 `toFixed` throws.
use native.Mathlib.Nat.{
  div-mul-le_self, lt-div-mul-add, le-div_iff_mul-le, div-lt_iff_lt-mul, pow-suc, one-le-pow,
  mul-le-mul_right, mul_assoc,
}
use distributed_file_storage.Prelude.{
  ℕ, zero, suc, ◌+◌, ◌-◌, ◌*◌, ◌/◌, ◌%◌, ◌^◌, ◌≤◌, ◌<◌, ◌≡◌, refl, ap, ◌∙◌, String, List, [], ◌∷◌,
  ◌==◌, if◌then◌else◌, template, decimal, get_elem?, or_else, arith, Bool-cases, inl, inr, ◌⊎◌, ◌≢◌,
  subst,
}

-- `toFixed(decimals)` of the quotient, in units of its last digit: the nearest, and of two the larger.
unfoldable pub round_quotient : ℕ → ℕ → ℕ
round_quotient a k = (2 * a + k) / (2 * k)

-- `parseFloat` forgets the zeros at the end of the decimals.
unfoldable pub strip_zeros : ℕ → ℕ → ℕ × ℕ
strip_zeros zero n = (n, 0)
strip_zeros (suc decimals) n =
    let shorter = strip_zeros decimals (n / 10) in
    if n % 10 == 0 then shorter else (n, suc decimals)

-- The last digits of a number, as many as told.
unfoldable pub last_digits : ℕ → ℕ → List String → List String
last_digits zero n rest = rest
last_digits (suc d) n rest = last_digits d (n / 10) (decimal (n % 10) ∷ rest)

unfoldable pub fixed_text : ℕ × ℕ → String
unfolding last_digits
fixed_text (n, zero) = decimal n
fixed_text (n, suc d) = template (decimal (n / 10 ^ suc d) ∷ "." ∷ last_digits (suc d) n [])

abbrev sizes : List String
sizes = "B" ∷ "KB" ∷ "MB" ∷ "GB" ∷ "TB" ∷ []

-- Out of range a template text shows the word.
abbrev pub unit_text : ℕ → String
unit_text i = or_else (get_elem? sizes i) "undefined"

-- `exponent` is `Math.floor(Math.log(bytes) / Math.log(1024))`.
module _ (exponent : ℕ → ℕ) where
  unfoldable pub format_bytes : ℕ → ℕ → String
  unfolding round_quotient strip_zeros fixed_text
  format_bytes zero decimals = "0 B"
  format_bytes (suc b) decimals =
      let i = exponent (suc b) in
      let val = strip_zeros decimals (round_quotient (suc b * 10 ^ decimals) (1024 ^ i)) in
      template (fixed_text val ∷ " " ∷ unit_text i ∷ [])

times_ten : (m p : ℕ) → m * (p * 10) ≡ 10 * (m * p)
times_ten m p = omega arith

scale-suc : (m d e : ℕ) → e ≤ d → m * 10 ^ (suc d - e) ≡ 10 * (m * 10 ^ (d - e))
scale-suc m d e le =
    let more : suc d - e ≡ suc (d - e) = omega (arith, le) in
    ap (λ x. m * 10 ^ x) more ∙ ap (λ p. m * p) (pow-suc 10 (d - e)) ∙ times_ten m (10 ^ (d - e))

strip_zeros-value :
    (d n : ℕ)
    → let (m, e) = strip_zeros d n in (e ≤ d) × (m * 10 ^ (d - e) ≡ n) × ((e ≡ 0) ⊎ (m % 10 ≢ 0))
unfolding strip_zeros
strip_zeros-value zero n = (omega arith, omega arith, inl refl)
strip_zeros-value (suc d) n =
    let (m, e) = strip_zeros d (n / 10) in
    let (short, same, ends) = strip_zeros-value d (n / 10) in
    elim (Bool-cases (n % 10 == 0)) [
      | inl z ↦ rw z (omega (arith, short), scale-suc m d e short ∙ ground (arith, z, same), ends)
      | inr z ↦
          let kept : suc d - suc d ≡ 0 = omega arith in
          rw z
            (omega arith, ap (λ x. n * 10 ^ x) kept ∙ omega arith, inr (λ h. ground (arith, z, h)))
    ]

module _ (a k : ℕ) (pos : 0 < k) where
  round_quotient-le : round_quotient a k * (2 * k) ≤ 2 * a + k
  unfolding round_quotient
  round_quotient-le = div-mul-le_self (2 * a + k) (2 * k)

  round_quotient-lt : 2 * a < round_quotient a k * (2 * k) + k
  unfolding round_quotient
  round_quotient-lt =
      let above = lt-div-mul-add {a = 2 * a + k} {b = 2 * k} (omega (arith, pos)) in
      omega (arith, above)

  round_quotient-at_least : (t : ℕ) → k * t ≤ a → t ≤ round_quotient a k
  unfolding round_quotient
  round_quotient-at_least t le =
      (le-div_iff_mul-le {k = 2 * k} {x = t} {y = 2 * a + k} (omega (arith, pos))).1
        (omega (arith, le))

  round_quotient-at_most : (t : ℕ) → a ≤ k * t → round_quotient a k ≤ t
  unfolding round_quotient
  round_quotient-at_most t le =
      let below =
        (div-lt_iff_lt-mul {k = 2 * k} {x = 2 * a + k} {y = suc t} (omega (arith, pos))).1
          (omega (arith, pos, le)) in
      omega (arith, below)

-- The digits of a text, read as a number of units of its last place, are within half of that place of the
-- quotient of the size.
abbrev pub Within : ℕ → ℕ → ℕ → Type 0
Within n a k = (n * (2 * k) ≤ 2 * a + k) × (2 * a ≤ n * (2 * k) + k)

module _ (exponent : ℕ → ℕ) where
  -- For a size that is not 0 and below 2^53, whose exponent is that of the largest power of 1024 in it, and at
  -- most 11 decimals: the text has at most the asked decimals, without zeros at their end, and the number before
  -- the unit is the nearest to the quotient by that power, from 1 to 1024.
  pub format_bytes-Within :
      (b decimals : ℕ)
      → 0 < b
      → b < 2 ^ 53
      → decimals ≤ 11
      → 1024 ^ exponent b ≤ b
      → b < 1024 ^ suc (exponent b)
      → (m : ℕ) × (e : ℕ) × (format_bytes exponent b decimals
          ≡ template (fixed_text (m, e) ∷ " " ∷ unit_text (exponent b) ∷ []))
        × (e ≤ decimals)
        × ((e ≡ 0) ⊎ (m % 10 ≢ 0))
        × Within (m * 10 ^ (decimals - e)) (b * 10 ^ decimals) (1024 ^ exponent b)
        × (10 ^ decimals ≤ m * 10 ^ (decimals - e))
        × (m * 10 ^ (decimals - e) ≤ 1024 * 10 ^ decimals)
  unfolding format_bytes
  format_bytes-Within zero decimals pos safe few low high = absurd (omega (arith, pos))
  format_bytes-Within (suc b) decimals pos safe few low high =
      let k = 1024 ^ exponent (suc b) in
      let a = suc b * 10 ^ decimals in
      let n = round_quotient a k in
      let (m, e) = strip_zeros decimals n in
      let (short, same, ends) = strip_zeros-value decimals n in
      let pos_k : 0 < k = one-le-pow (exponent (suc b)) 1024 (omega arith) in
      let under : suc b ≤ k * 1024 =
        subst (λ x. suc b ≤ x) (pow-suc 1024 (exponent (suc b))) (omega (arith, high)) in
      let scaled = mul-le-mul_right {m = suc b} {n = k * 1024} (10 ^ decimals) under in
      (
        m,
        e,
        refl,
        short,
        ends,
        rw same (round_quotient-le a k pos_k, omega (arith, round_quotient-lt a k pos_k)),
        rw same (
            round_quotient-at_least a k pos_k (10 ^ decimals)
              (mul-le-mul_right {m = k} {n = suc b} (10 ^ decimals) low)),
        rw same (
            round_quotient-at_most a k pos_k (1024 * 10 ^ decimals)
              (subst (λ x. a ≤ x) (mul_assoc k 1024 (10 ^ decimals)) scaled)),
      )
