-- ===== src/Polling/Restart.antt =====
-- What a call of `startPolling` during a request does: the suspended execution finds the flag set
-- again and goes on beside the new one.
use distributed_file_storage.Prelude.{
  ℕ, suc, ◌-◌, ◌≡◌, true, Option, none, some, [], ◌∷◌, arith, length,
}
use distributed_file_storage.Runtime.{Runtime, clear_timeout?}
use distributed_file_storage.Polling.{
  Poller, Machine, start, respond, start_polling, resume, step, run,
}
use distributed_file_storage.Polling.Lawful.{IsLawful}

module _ {S R O C : Type 0} (p : Poller S R O C) (law : IsLawful p) where
  cleared-nil :
      (known : Option ℕ) (rt : Runtime R) → rt.timers ≡ [] → (clear_timeout? known rt).timers ≡ []
  cleared-nil none rt e = e
  cleared-nil (some i) rt e = rw e

  start_lem :
      (c : C) (m : Machine S R)
      → m.runtime.timers ≡ []
      → let n = start_polling p c m in
        (n.waiting ≡ suc m.waiting) × (n.runtime.timers ≡ []) × (p.is_polling n.service ≡ true)
  unfolding start_polling
  start_lem c m e =
      let s = p.configure c m.service in
      let stopped = p.stop_polling s m.runtime in
      ground (
        arith,
        law.set_polling_on stopped.0,
        law.begin_timers (p.set_polling stopped.0) stopped.1,
        law.begin_loop (p.set_polling stopped.0) stopped.1,
        law.stop_timers s m.runtime,
        cleared-nil (p.timer_id s) m.runtime e,
      )

  resume_lem :
      (o : O) (m : Machine S R)
      → p.is_polling m.service ≡ true
      → let n = resume p o m in
        (n.waiting ≡ m.waiting - 1)
        × (length n.runtime.timers ≡ suc (length m.runtime.timers))
        × (p.is_polling n.service ≡ true)
  unfolding resume
  resume_lem o m on =
      let s = (p.settle o m.service m.runtime).0 in
      let rt = (p.settle o m.service m.runtime).1 in
      ground (
        arith,
        law.settle_loop o m.service m.runtime,
        law.settle_timers o m.service m.runtime,
        law.set_timer_polling rt.next_id s,
      )

  -- A restart during the loop's one request, and the two responses: two timers are pending, so two
  -- loops run from then on.
  restart_two_loops :
      (c : C) (o₁ o₂ : O) (m : Machine S R)
      → m.waiting ≡ 1
      → m.runtime.timers ≡ []
      → let n = run p (start c ∷ respond o₁ ∷ respond o₂ ∷ []) m in
        (n.waiting ≡ 0) × (length n.runtime.timers ≡ 2)
  unfolding run step
  restart_two_loops c o₁ o₂ m one e = ground (
    arith,
    start_lem c m e,
    resume_lem o₁ (start_polling p c m),
    resume_lem o₂ (resume p o₁ (start_polling p c m)),
  )
