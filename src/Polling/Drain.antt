-- ===== src/Polling/Drain.antt =====
-- How a loop of polling that is stopped comes to its end.
use distributed_file_storage.Prelude.{
  false, ◌-◌, ◌≤◌, ◌≡◌, refl, List, [], ◌∷◌, map, length, All, arith, Bool-cases, inl, inr, ==_iff,
  ◌==◌,
}
use distributed_file_storage.Polling.{
  Poller, Machine, Event, stop, respond, resume, step, run, stop_machine,
}
use distributed_file_storage.Polling.Lawful.{IsLawful}
use distributed_file_storage.Polling.Runs.{is_start, run_quiet_after_stop}

module _ {S R O C : Type 0} (p : Poller S R O C) where
  waiting-resume : (o : O) (m : Machine S R) → (resume p o m).waiting ≡ m.waiting - 1
  unfolding resume
  waiting-resume o m = elim (Bool-cases (p.is_polling (p.settle o m.service m.runtime).0)) [
    | inl e ↦ rw e refl
    | inr e ↦ rw e refl
  ]

  waiting-respond : (o : O) (m : Machine S R) → (step p (respond o) m).waiting ≡ m.waiting - 1
  unfolding step
  waiting-respond o m = elim (Bool-cases (m.waiting == 0)) [
    | inl e ↦ rw e (ground (arith, (==_iff m.waiting 0).0 e))
    | inr e ↦ rw e (waiting-resume o m)
  ]

  waiting-run :
      (os : List O) (m : Machine S R) → (run p (map respond os) m).waiting ≡ m.waiting - length os
  unfolding run
  waiting-run [] m = omega arith
  waiting-run (o ∷ os) m =
      let rest = waiting-run os (step p (respond o) m) in
      let first = waiting-respond o m in ground (arith, rest, first)

  waiting-stop : (m : Machine S R) → (step p stop m).waiting ≡ m.waiting
  unfolding step stop_machine
  waiting-stop m = refl

  passive :
      (os : List O) → let es : List (Event O C) = map respond os in All (λ e. is_start e ≡ false) es
  passive [] = tt
  passive (o ∷ os) = (refl, passive os)

  -- After `stopPolling` the loop of a lawful service comes to its end: once as many responses have come as
  -- requests were under way, none is, and the loop has begun no other and no timer has been added.
  pub stop_drains :
      (law : IsLawful p) (os : List O) (m : Machine S R)
      → m.waiting ≤ length os
      → let n = run p (map respond os) (step p stop m) in
        (n.waiting ≡ 0)
        × (n.requests ≡ m.requests)
        × (length n.runtime.timers ≤ length m.runtime.timers)
  stop_drains law os m enough =
      let kept : (step p stop m).waiting ≡ m.waiting = waiting-stop m in
      let left = waiting-run os (step p stop m) in
      let (off, requests, waiting, timers) =
        run_quiet_after_stop p law (map respond os) m (passive os) in
      (ground (arith, enough, kept, left), requests, timers)
