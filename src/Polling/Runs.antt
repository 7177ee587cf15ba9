-- ===== src/Polling/Runs.antt =====
-- What holds of the loop over every sequence of events: it never dies while it is on, and it never
-- begins a request once it is off.
use distributed_file_storage.Prelude.{
  ℕ, ◌+◌, ◌≤◌, ◌≡◌, refl, Bool, true, false, Option, none, some, List, [], ◌∷◌, arith, length,
  length-filter-le, All, not, ◌==◌,
}
use distributed_file_storage.Runtime.{Runtime, clear_timeout?}
use distributed_file_storage.Polling.{
  Poller, Machine, Event, start, stop, fire, respond, retry, respond_outside, stop_machine, step,
  run,
}
use distributed_file_storage.Polling.Lawful.{IsLawful}

-- An event that is no call of `startPolling`.
abbrev pub is_start : {O C : Type 0} → Event O C → Bool
is_start (start c) = true
is_start _ = false

length-cleared :
    {R : Type 0} (id : Option ℕ) (rt : Runtime R)
    → length (clear_timeout? id rt).timers ≤ length rt.timers
length-cleared none rt = omega arith
length-cleared (some i) rt = length-filter-le (λ t. not (t.id == i)) rt.timers

module _ {S R O C : Type 0} (p : Poller S R O C) (law : IsLawful p) where
  -- While polling is on, a request is under way or a timer is pending.
  abbrev pub IsAlive : Machine S R → Type 0
  IsAlive m = p.is_polling m.service ≡ true → 1 ≤ m.waiting + length m.runtime.timers

  step-IsAlive : (e : Event O C) (m : Machine S R) → IsAlive m → IsAlive (step p e m)
  unfolding step
  step-IsAlive (start c) m h = ground arith
  step-IsAlive stop m h = ground (arith, law.stop_off m.service m.runtime)
  step-IsAlive (fire id) m h = ground arith
  step-IsAlive (respond o) m h =
      ground (arith, law.settle_loop o m.service m.runtime, law.settle_timers o m.service m.runtime)
  step-IsAlive retry m h = ground (
    arith,
    law.reset_loop m.service,
    law.begin_loop (p.reset_backoff m.service) m.runtime,
    law.begin_timers (p.reset_backoff m.service) m.runtime,
  )
  step-IsAlive (respond_outside o) m h =
      ground (arith, law.settle_loop o m.service m.runtime, law.settle_timers o m.service m.runtime)

  run-IsAlive : (es : List (Event O C)) (m : Machine S R) → IsAlive m → IsAlive (run p es m)
  unfolding run
  run-IsAlive [] m h = h
  run-IsAlive (e ∷ es) m h = run-IsAlive es (step p e m) (step-IsAlive e m h)

  -- Whatever happens to a service that is off at first (responses, failures, timers, restarts, calls
  -- from outside): whenever polling is on, a request of the loop is under way or a timer that will
  -- begin the next one is pending. No failure ends the loop.
  pub run_alive :
      (es : List (Event O C)) (m : Machine S R)
      → p.is_polling m.service ≡ false
      → p.is_polling (run p es m).service ≡ true
      → 1 ≤ (run p es m).waiting + length (run p es m).runtime.timers
  run_alive es m off on = run-IsAlive es m (λ h. cc) on

  -- Off, with the loop's own requests and timers bounded by those of `m`.
  record IsQuiet (m n : Machine S R) : Type 0 where
    off : p.is_polling n.service ≡ false
    no_requests : n.requests ≡ m.requests
    no_waiting : n.waiting ≤ m.waiting
    no_timers : length n.runtime.timers ≤ length m.runtime.timers

  step-IsQuiet :
      (e : Event O C) (m n : Machine S R)
      → is_start e ≡ false
      → IsQuiet m n
      → IsQuiet m (step p e n)
  unfolding step
  step-IsQuiet (start c) m n ns q = cc
  step-IsQuiet stop m n ns q = ground (
    arith,
    law.stop_off n.service n.runtime,
    law.stop_timers n.service n.runtime,
    length-cleared (p.timer_id n.service) n.runtime,
  )
  step-IsQuiet (fire id) m n ns q =
      ground (arith, length-filter-le (λ t. not (t.id == id)) n.runtime.timers)
  step-IsQuiet (respond o) m n ns q =
      ground (arith, law.settle_loop o n.service n.runtime, law.settle_timers o n.service n.runtime)
  step-IsQuiet retry m n ns q = ground (
    arith,
    law.reset_loop n.service,
    law.begin_loop (p.reset_backoff n.service) n.runtime,
    law.begin_timers (p.reset_backoff n.service) n.runtime,
  )
  step-IsQuiet (respond_outside o) m n ns q =
      ground (arith, law.settle_loop o n.service n.runtime, law.settle_timers o n.service n.runtime)

  run-IsQuiet :
      (es : List (Event O C)) (m n : Machine S R)
      → All (λ e. is_start e ≡ false) es
      → IsQuiet m n
      → IsQuiet m (run p es n)
  unfolding run
  run-IsQuiet [] m n h q = q
  run-IsQuiet (e ∷ es) m n (h, hs) q = run-IsQuiet es m (step p e n) hs (step-IsQuiet e m n h q)

  -- After `stopPolling`, and until `startPolling` is called again, the loop begins no request and sets
  -- no timer, whatever timers still fire and however the requests under way end.
  pub run_quiet_after_stop :
      (es : List (Event O C)) (m : Machine S R)
      → All (λ e. is_start e ≡ false) es
      → let n = run p es (step p stop m) in
        (p.is_polling n.service ≡ false)
        × (n.requests ≡ m.requests)
        × (n.waiting ≤ m.waiting)
        × (length n.runtime.timers ≤ length m.runtime.timers)
  unfolding step
  run_quiet_after_stop es m h =
      let start_quiet : IsQuiet m (stop_machine p m) = record {
        off = law.stop_off m.service m.runtime;
        no_requests = refl;
        no_waiting = omega arith;
        no_timers = ground (
          arith,
          law.stop_timers m.service m.runtime,
          length-cleared (p.timer_id m.service) m.runtime,
        );
      } in
      let q = run-IsQuiet es m (stop_machine p m) h start_quiet in
      (q.off, q.no_requests, q.no_waiting, q.no_timers)
