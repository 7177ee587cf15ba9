-- ===== src/Polling/Lawful.antt =====
-- The laws that the loop needs of a service. Each service proves them of its own operations.
use distributed_file_storage.Prelude.{ℕ, true, false, some, ◌≡◌}
use distributed_file_storage.Runtime.{Runtime, clear_timeout?}
use distributed_file_storage.Polling.{Poller}

-- Two states of one loop: the flag and the timer's identity are the same.
pub record SameLoop {S R O C : Type 0} (p : Poller S R O C) (s t : S) : Type 0 where
  pub polling : p.is_polling s ≡ p.is_polling t
  pub timer : p.timer_id s ≡ p.timer_id t

-- A fetch leaves the loop's control alone, in the service and in the runtime; `stopPolling` clears
-- the flag and the one timer that the service knows.
pub record IsLawful {S R O C : Type 0} (p : Poller S R O C) : Type 0 where
  pub configure_loop : (c : C) (s : S) → SameLoop p (p.configure c s) s
  pub reset_loop : (s : S) → SameLoop p (p.reset_backoff s) s
  pub begin_loop : (s : S) (rt : Runtime R) → SameLoop p (p.begin s rt).0 s
  pub begin_timers : (s : S) (rt : Runtime R) → (p.begin s rt).1.timers ≡ rt.timers
  pub settle_loop : (o : O) (s : S) (rt : Runtime R) → SameLoop p (p.settle o s rt).0 s
  pub settle_timers : (o : O) (s : S) (rt : Runtime R) → (p.settle o s rt).1.timers ≡ rt.timers
  pub set_polling_on : (s : S) → p.is_polling (p.set_polling s) ≡ true
  pub set_timer_polling : (i : ℕ) (s : S) → p.is_polling (p.set_timer i s) ≡ p.is_polling s
  pub set_timer_id : (i : ℕ) (s : S) → p.timer_id (p.set_timer i s) ≡ some i
  pub stop_off : (s : S) (rt : Runtime R) → p.is_polling (p.stop_polling s rt).0 ≡ false
  pub stop_timers :
      (s : S) (rt : Runtime R)
      → (p.stop_polling s rt).1.timers ≡ (clear_timeout? (p.timer_id s) rt).timers
