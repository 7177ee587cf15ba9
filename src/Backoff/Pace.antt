-- ===== src/Backoff/Pace.antt =====
-- The pace of a poller, which the four services implement: what of their state decides the delay
-- before the next poll, and how the end of a poll moves it.
use distributed_file_storage.Prelude.{
  ℕ, suc, Bool, true, false, List, [], ◌∷◌, ◌≡◌, refl, ◌∙◌, if◌then◌else◌,
}
use distributed_file_storage.Api.{Outcome, resolved, rejected, Reply}
use distributed_file_storage.Backoff.{Factor, backoff_interval}

pub record Pace : Type 0 where
  pub base : ℕ
  pub most : ℕ
  pub factor : Factor
  pub failures : ℕ
  pub interval : ℕ
  pub reachable : Bool

abbrev pub delay : Pace → ℕ
delay p = if p.reachable then p.base else p.interval

module _ {A : Type 0} where
  unfoldable pub follow : Outcome A → Pace → Pace
  follow (resolved a) p = record p { failures = 0; interval = p.base; reachable = true }
  follow (rejected e) p = record p {
    failures = suc p.failures;
    interval = backoff_interval p.base p.most p.factor (suc p.failures);
    reachable = false;
  }

  unfoldable pub follow_all : List (Reply A) → Pace → Pace
  follow_all [] p = p
  follow_all (r ∷ rs) p = follow_all rs (follow r.outcome p)

  -- How many polls have failed since the last that succeeded, after `n` failures before the first.
  abbrev pub next_failures : Outcome A → ℕ → ℕ
  next_failures (resolved a) n = 0
  next_failures (rejected e) n = suc n

  abbrev pub failures_after : List (Reply A) → ℕ → ℕ
  failures_after [] n = n
  failures_after (r ∷ rs) n = failures_after rs (next_failures r.outcome n)

  follow-failures : (o : Outcome A) (p : Pace) → (follow o p).failures ≡ next_failures o p.failures
  unfolding follow
  follow-failures (resolved a) p = refl
  follow-failures (rejected e) p = refl

  follow-delay :
      (o : Outcome A) (p : Pace)
      → delay (follow o p) ≡ backoff_interval p.base p.most p.factor (next_failures o p.failures)
  unfolding follow backoff_interval
  follow-delay (resolved a) p = refl
  follow-delay (rejected e) p = refl

  follow-interval :
      (o : Outcome A) (p : Pace) (n : ℕ)
      → backoff_interval (follow o p).base (follow o p).most (follow o p).factor n
        ≡ backoff_interval p.base p.most p.factor n
  unfolding follow
  follow-interval (resolved a) p n = refl
  follow-interval (rejected e) p n = refl

  -- After one poll or more the delay is the backoff of the failures since the last success.
  pub follow_all-delay :
      (r : Reply A) (rs : List (Reply A)) (p : Pace)
      → delay (follow_all (r ∷ rs) p)
        ≡ backoff_interval p.base p.most p.factor (failures_after (r ∷ rs) p.failures)
  unfolding follow_all
  follow_all-delay r [] p = follow-delay r.outcome p
  follow_all-delay r (q ∷ rs) p =
      let rest = follow_all-delay q rs (follow r.outcome p) in
      rest ∙ (rw (follow-failures r.outcome p) (follow-interval r.outcome p _))
