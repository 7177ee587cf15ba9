-- ===== src/Formats/Ages.antt =====
-- What the relative time of frontend/src/components/NodeDetailPanel.ts says of the age of a pulse.
use distributed_file_storage.Prelude.{
  ℕ, suc, ◌≤◌, ◌<◌, ◌*◌, ◌/◌, ◌&&◌, ◌≡◌, refl, true, false, String, [], ◌∷◌, ltb, leb, ◌⊎◌, inl,
  inr, template, decimal, arith, Bool-cases, ◌^◌, ◌∙◌, sym, subst, ◌==◌, ◌-◌,
}
use distributed_file_storage.Formats.{
  is_date, milliseconds, age_of, relative_text, format_detailed_timestamp, full_text,
}

pub data TimeUnit : Type 0 where
  second minute hour : TimeUnit

abbrev pub seconds_in : TimeUnit → ℕ
seconds_in second = 1
seconds_in minute = 60
seconds_in hour = 3600

abbrev pub suffix : TimeUnit → String
suffix second = "s ago"
suffix minute = "m ago"
suffix hour = "h ago"

-- The text tells the age, cut to whole units.
abbrev pub Tells : ℕ → String → Type 0
Tells age text =
    ((age ≡ 0) × (text ≡ "Just now"))
    ⊎ ((u : TimeUnit) × (n : ℕ) × (text ≡ template (decimal n ∷ suffix u ∷ []))
        × (0 < n)
        × (n * seconds_in u ≤ age)
        × (age < suc n * seconds_in u))

relative_text-Tells : (age : ℕ) → Tells age (relative_text age)
unfolding relative_text
relative_text-Tells age = elim (Bool-cases (leb 1 age && ltb age 60)) [
  | inl s ↦ rw s (inr (second, age, refl, ground (arith, s), omega arith, omega arith))
  | inr s ↦ elim (Bool-cases (leb 60 age && ltb age 3600)) [
    | inl m ↦
        rw s (rw m (inr (minute, age / 60, refl, ground (arith, m), omega arith, omega arith)))
    | inr m ↦ elim (Bool-cases (leb 3600 age)) [
      | inl h ↦
          rw s (
            rw m (rw h (inr (hour, age / 3600, refl, ground (arith, h), omega arith, omega arith))))
      | inr h ↦ rw s (rw m (rw h (inl (ground (arith, s, m, h), refl))))
    ]
  ]
]

same_milliseconds : (t : ℕ) → 10 ^ 11 ≤ t → t < 10 ^ 14 → milliseconds (1000 * t) ≡ milliseconds t
same_milliseconds t p q = ground (arith, p, q)

same_age : (now t : ℕ) → 10 ^ 11 ≤ t → t < 10 ^ 14 → age_of now (1000 * t) ≡ age_of now t
same_age now t p q = ground (arith, p, q)

module _ (iso : ℕ → String) where
  format_date :
      (now t : ℕ)
      → (t == 0) ≡ false
      → is_date (milliseconds t) ≡ true
      → format_detailed_timestamp iso now t
        ≡ record { full = full_text iso (milliseconds t); relative = relative_text (age_of now t) }
  unfolding format_detailed_timestamp
  format_date now t some_time date = rw some_time (rw date refl)

  -- From March 1973 to the year 5138 a pulse may be recorded in seconds or in milliseconds: the panel shows the
  -- same for both, and its relative time tells the age of the pulse, cut to whole seconds, minutes or hours.
  pub detailed_timestamp-Tells :
      (now t : ℕ)
      → 10 ^ 11 ≤ t
      → t < 10 ^ 14
      → (format_detailed_timestamp iso now (1000 * t) ≡ format_detailed_timestamp iso now t)
        × Tells ((now - t) / 1000) (format_detailed_timestamp iso now t).relative
  detailed_timestamp-Tells now t p q =
      let in_seconds = format_date now t (ground (arith, p)) (ground (arith, q)) in
      let in_milliseconds = format_date now (1000 * t) (ground (arith, p)) (ground (arith, p, q)) in
      (
        in_milliseconds
            ∙ (λ j. record {
              full = full_text iso (same_milliseconds t p q j);
              relative = relative_text (same_age now t p q j);
            })
            ∙ sym in_seconds,
        subst (λ s. Tells ((now - t) / 1000) s.relative) (sym in_seconds)
            (subst (λ a. Tells a (relative_text (age_of now t))) (ground (arith, q))
              (relative_text-Tells (age_of now t))),
      )
