-- ===== src/Polling.antt =====
-- The polling loop that the four services share, as a machine over an interface. A service is split
-- at its one `await`: `begin` runs a fetch up to it, `settle` runs the rest on the outcome.
pub mod Lawful
pub mod Runs
pub mod Tracked
pub mod SingleFlight
pub mod Restart
pub mod Drain
use distributed_file_storage.Prelude.{
  ℕ, suc, ◌+◌, ◌-◌, Bool, not, true, false, Option, none, some, List, [], ◌∷◌, ◌==◌, if◌then◌else◌,
  filter,
}
use distributed_file_storage.Runtime.{Timer, Runtime, set_timeout}

-- What the loop uses of a service: `S` is the service's state, `R` the value that it broadcasts, `O`
-- how its fetch ends, and `C` the argument of `startPolling`.
pub record Poller (S R O C : Type 0) : Type 0 where
  pub is_polling : S → Bool
  pub timer_id : S → Option ℕ
  pub set_polling : S → S
  pub set_timer : ℕ → S → S
  pub configure : C → S → S
  pub reset_backoff : S → S
  pub begin : S → Runtime R → S × Runtime R
  pub settle : O → S → Runtime R → S × Runtime R
  pub stop_polling : S → Runtime R → S × Runtime R
  pub delay : S → ℕ

-- A service in its runtime. `waiting` counts the executions of the loop that are suspended at the
-- `await`, `outside` the fetches of other callers, `requests` all fetches that the loop has begun.
pub record Machine (S R : Type 0) : Type 0 where
  pub service : S
  pub runtime : Runtime R
  pub waiting : ℕ
  pub outside : ℕ
  pub requests : ℕ

pub data Event (O C : Type 0) : Type 0 where
  start : C → Event O C
  stop : Event O C
  fire : ℕ → Event O C
  respond : O → Event O C
  retry : Event O C
  respond_outside : O → Event O C

abbrev pub has_timer : ℕ → List Timer → Bool
has_timer id [] = false
has_timer id (t ∷ ts) = let rest = has_timer id ts in if t.id == id then true else rest

module _ {S R O C : Type 0} (p : Poller S R O C) where
  -- `executeLoop` up to the `await`
  unfoldable pub execute_loop : Machine S R → Machine S R
  execute_loop m =
      let (s, rt) = p.begin m.service m.runtime in
      if p.is_polling m.service
      then record m {
        service = s;
        runtime = rt;
        waiting = suc m.waiting;
        requests = suc m.requests;
      }
      else m

  -- `executeLoop` after the `await`
  unfoldable pub resume : O → Machine S R → Machine S R
  resume o m =
      let (s, rt) = p.settle o m.service m.runtime in
      let settled = record m { service = s; runtime = rt; waiting = m.waiting - 1 } in
      let (id, rt') = set_timeout (p.delay s) rt in
      if p.is_polling s
      then record settled { service = p.set_timer id s; runtime = rt' }
      else settled

  -- `startPolling(config)`
  unfoldable pub start_polling : C → Machine S R → Machine S R
  unfolding execute_loop
  start_polling c m =
      let (s, rt) = p.stop_polling (p.configure c m.service) m.runtime in
      execute_loop (record m { service = p.set_polling s; runtime = rt })

  -- `stopPolling()`
  unfoldable pub stop_machine : Machine S R → Machine S R
  stop_machine m =
      let (s, rt) = p.stop_polling m.service m.runtime in record m { service = s; runtime = rt }

  -- A pending timer runs its callback, and is pending no more.
  unfoldable pub fire_timer : ℕ → Machine S R → Machine S R
  unfolding execute_loop
  fire_timer id m =
      let rt = m.runtime in
      let left = record rt { timers = filter (λ t. not (t.id == id)) rt.timers } in
      let fired = execute_loop (record m { runtime = left }) in
      if has_timer id rt.timers then fired else m

  -- `retry()`, `refreshFiles()`: a fetch that the loop does not wait for.
  unfoldable pub retry_machine : Machine S R → Machine S R
  retry_machine m =
      let (s, rt) = p.begin (p.reset_backoff m.service) m.runtime in
      record m { service = s; runtime = rt; outside = suc m.outside }

  unfoldable pub resume_outside : O → Machine S R → Machine S R
  resume_outside o m =
      let (s, rt) = p.settle o m.service m.runtime in
      record m { service = s; runtime = rt; outside = m.outside - 1 }

  -- One turn of the event loop. A response comes only while a request is under way.
  unfoldable pub step : Event O C → Machine S R → Machine S R
  unfolding start_polling stop_machine fire_timer resume retry_machine resume_outside
  step (start c) m = start_polling c m
  step stop m = stop_machine m
  step (fire id) m = fire_timer id m
  step (respond o) m = let resumed = resume o m in if m.waiting == 0 then m else resumed
  step retry m = retry_machine m
  step (respond_outside o) m =
      let resumed = resume_outside o m in if m.outside == 0 then m else resumed

  unfoldable pub run : List (Event O C) → Machine S R → Machine S R
  run [] m = m
  run (e ∷ es) m = run es (step e m)
