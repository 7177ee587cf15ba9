-- ===== src/Polling/SingleFlight.antt =====
-- At most one request or timer at a time, where `startPolling` is not called during a request.
use distributed_file_storage.Prelude.{
  ℕ, ◌+◌, ◌≤◌, ◌≡◌, ap, ◌∙◌, ◌⊎◌, inl, inr, true, List, [], ◌∷◌, arith, length, not, ◌==◌, filter,
  Bool-cases,
}
use distributed_file_storage.Runtime.{Runtime, Timer, clear_timeout?}
use distributed_file_storage.Polling.{
  Poller, Machine, Event, start, stop, fire, respond, retry, respond_outside, stop_machine,
  execute_loop, start_polling, resume, fire_timer, retry_machine, resume_outside, has_timer, step,
  run,
}
use distributed_file_storage.Polling.Lawful.{IsLawful}
use distributed_file_storage.Polling.Tracked.{
  Tracked, Tracked-length, nil-Tracked, cleared-Tracked, fired-Tracked, has_timer-nil,
}

module _ {S R O C : Type 0} (p : Poller S R O C) (law : IsLawful p) where
  -- Nothing under way and a tracked timer, or one request and no timer.
  abbrev IsSingle : Machine S R → Type 0
  IsSingle m =
      (m.waiting ≡ 0) × Tracked m.runtime.timers (p.timer_id m.service)
      ⊎ (m.waiting ≡ 1) × (m.runtime.timers ≡ [])

  start-IsSingle :
      (c : C) (m : Machine S R) → IsSingle m → m.waiting ≡ 0 → IsSingle (start_polling p c m)
  unfolding start_polling
  start-IsSingle c m h none_waiting =
      let s = p.configure c m.service in
      let s' = (p.stop_polling s m.runtime).0 in
      inr (
        ground (
          arith,
          law.set_polling_on s',
          law.begin_timers (p.set_polling s') (p.stop_polling s m.runtime).1,
          law.stop_timers s m.runtime,
          stopped h,
        ))
    where
      stopped :
          IsSingle m → (clear_timeout? (p.timer_id (p.configure c m.service)) m.runtime).timers ≡ []
      stopped (inl (_, t)) =
          cleared-Tracked m.runtime _ (rw (law.configure_loop c m.service).timer t)
      stopped (inr (one, _)) = absurd (omega arith)

  fire-IsSingle : (id : ℕ) (m : Machine S R) → IsSingle m → IsSingle (fire_timer p id m)
  unfolding fire_timer
  fire-IsSingle id m h = elim (Bool-cases (has_timer id m.runtime.timers)) [
    | inr miss ↦ rw miss h
    | inl hit ↦ rw hit (fired h hit)
  ]
    where
      left : Runtime R
      left = record (m.runtime) { timers = filter (λ t. not (t.id == id)) m.runtime.timers }

      fired :
          IsSingle m
          → has_timer id m.runtime.timers ≡ true
          → IsSingle (execute_loop p (record m { runtime = left }))
      fired (inr (one, e)) hit = cc (has_timer-nil m.runtime.timers id e)
      fired (inl (none_waiting, t)) hit =
          let gone = fired-Tracked m.runtime.timers _ id t hit in
          elim (Bool-cases (p.is_polling m.service)) [
            | inl on ↦ inr (ground (arith, law.begin_timers m.service left))
            | inr off ↦ rw off (inl (none_waiting, rw gone tt))
          ]

  set_timer-Tracked :
      (ts : List Timer) (s : S) (id delay : ℕ)
      → ts ≡ []
      → Tracked (record { id = id; delay = delay } ∷ ts) (p.timer_id (p.set_timer id s))
  set_timer-Tracked [] s id delay e = law.set_timer_id id s
  set_timer-Tracked (t ∷ ts) s id delay e = cc

  resume-IsSingle :
      (o : O) (m : Machine S R) → IsSingle m → (m.waiting ≡ 0 → ⊥) → IsSingle (resume p o m)
  unfolding resume
  resume-IsSingle o m (inl (none_waiting, _)) busy = absurd (busy none_waiting)
  resume-IsSingle o m (inr (one, e)) busy =
      let s = (p.settle o m.service m.runtime).0 in
      let no_timers = law.settle_timers o m.service m.runtime ∙ e in
      elim (Bool-cases (p.is_polling s)) [
        | inl on ↦ rw on (inl (omega arith, set_timer-Tracked _ s _ (p.delay s) no_timers))
        | inr off ↦ rw off (inl (omega arith, nil-Tracked _ _ no_timers))
      ]

  -- `stopPolling` clears the one timer.
  stop_clears : (m : Machine S R) → IsSingle m → (p.stop_polling m.service m.runtime).1.timers ≡ []
  stop_clears m (inl (_, t)) = law.stop_timers m.service m.runtime ∙ cleared-Tracked m.runtime _ t
  stop_clears m (inr (_, e)) =
      law.stop_timers m.service m.runtime
      ∙ cleared-Tracked m.runtime _ (nil-Tracked m.runtime.timers _ e)

  stop-IsSingle : (m : Machine S R) → IsSingle m → IsSingle (stop_machine p m)
  unfolding stop_machine
  stop-IsSingle m h = split h
    where
      split : IsSingle m → IsSingle (stop_machine p m)
      split (inl (w, _)) = inl (w, nil-Tracked _ _ (stop_clears m h))
      split (inr (w, _)) = inr (w, stop_clears m h)

  retry-IsSingle : (m : Machine S R) → IsSingle m → IsSingle (retry_machine p m)
  unfolding retry_machine
  retry-IsSingle m h = kept h
    where
      s : S
      s = p.reset_backoff m.service

      same : p.timer_id (p.begin s m.runtime).0 ≡ p.timer_id m.service
      same = (law.begin_loop s m.runtime).timer ∙ (law.reset_loop m.service).timer

      kept : IsSingle m → IsSingle (retry_machine p m)
      kept (inl (w, t)) = inl (w, rw (law.begin_timers s m.runtime, same) t)
      kept (inr (w, e)) = inr (w, law.begin_timers s m.runtime ∙ e)

  outside-IsSingle : (o : O) (m : Machine S R) → IsSingle m → IsSingle (resume_outside p o m)
  unfolding resume_outside
  outside-IsSingle o m (inl (w, t)) = inl (
    w,
    rw (law.settle_timers o m.service m.runtime, (law.settle_loop o m.service m.runtime).timer) t,
  )
  outside-IsSingle o m (inr (w, e)) = inr (w, law.settle_timers o m.service m.runtime ∙ e)

  -- `startPolling` is called only while no execution of the loop is suspended.
  abbrev pub IsAllowed : Event O C → Machine S R → Type 0
  IsAllowed (start c) m = m.waiting ≡ 0
  IsAllowed _ m = Unit

  abbrev pub IsOrderly : List (Event O C) → Machine S R → Type 0
  IsOrderly [] m = Unit
  IsOrderly (e ∷ es) m = IsAllowed e m × IsOrderly es (step p e m)

  step-IsSingle :
      (e : Event O C) (m : Machine S R) → IsAllowed e m → IsSingle m → IsSingle (step p e m)
  unfolding step
  step-IsSingle (start c) m ok h = start-IsSingle c m h ok
  step-IsSingle stop m ok h = stop-IsSingle m h
  step-IsSingle (fire id) m ok h = fire-IsSingle id m h
  step-IsSingle (respond o) m ok h = elim (Bool-cases (m.waiting == 0)) [
    | inl idle ↦ rw idle h
    | inr busy ↦ rw busy (resume-IsSingle o m h (ground arith))
  ]
  step-IsSingle retry m ok h = retry-IsSingle m h
  step-IsSingle (respond_outside o) m ok h = elim (Bool-cases (m.outside == 0)) [
    | inl idle ↦ rw idle h
    | inr busy ↦ rw busy (outside-IsSingle o m h)
  ]

  run-IsSingle :
      (es : List (Event O C)) (m : Machine S R)
      → IsOrderly es m
      → IsSingle m
      → IsSingle (run p es m)
  unfolding run
  run-IsSingle [] m o h = h
  run-IsSingle (e ∷ es) m (ok, o) h = run-IsSingle es (step p e m) o (step-IsSingle e m ok h)

  -- From a service with no request of the loop under way and no timer, and as long as `startPolling`
  -- is never called during such a request: at every time at most one of the loop's requests and
  -- timers exists, and `stopPolling` leaves no timer.
  pub run_single_flight :
      (es : List (Event O C)) (m : Machine S R)
      → m.waiting ≡ 0
      → m.runtime.timers ≡ []
      → IsOrderly es m
      → let n = run p es m in
        (n.waiting + length n.runtime.timers ≤ 1) × ((step p stop n).runtime.timers ≡ [])
  unfolding step
  run_single_flight es m w e ordered =
      let last = run-IsSingle es m ordered (inl (w, nil-Tracked _ _ e)) in
      (counted last, stop_clears (run p es m) last)
    where
      counted :
          IsSingle (run p es m) → (run p es m).waiting + length (run p es m).runtime.timers ≤ 1
      counted (inr (one, none_pending)) = omega (arith, ap length none_pending)
      counted (inl (none_waiting, t)) = omega (arith, Tracked-length _ _ t)
