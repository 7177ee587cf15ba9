-- ===== src/Runtime.antt =====
-- What the services use of the JavaScript runtime: timers, abort controllers and the listeners'
-- callbacks. `R` is the type of the value that a service broadcasts.
pub mod Listeners
use distributed_file_storage.Prelude.{
  ℕ, suc, Bool, not, true, false, Option, none, some, List, [], ◌∷◌, ◌++◌, ◌==◌, if◌then◌else◌,
  filter,
}

-- A callback that `setTimeout` has scheduled and that has not run.
pub record Timer : Type 0 where
  pub id : ℕ
  pub delay : ℕ

pub record Runtime (R : Type 0) : Type 0 where
  pub next_id : ℕ
  pub timers : List Timer
  -- the callbacks of the timers whose identity the code drops, so that nothing can cancel them
  pub one_shots : List Timer
  pub aborted : List ℕ
  pub delivered : List (ℕ × R)
  pub console_errors : List ℕ
  -- whether a listener throws when it is called with a value
  pub throws : ℕ → R → Bool

module _ {R : Type 0} where
  -- `setTimeout(callback, delay)`, with the identity of the new timer
  abbrev pub set_timeout : ℕ → Runtime R → ℕ × Runtime R
  set_timeout delay rt = (
    rt.next_id,
    record rt {
      next_id = suc rt.next_id;
      timers = record { id = rt.next_id; delay = delay } ∷ rt.timers;
    },
  )

  -- `setTimeout(callback, delay)` where the identity is not kept
  abbrev pub set_one_shot : ℕ → Runtime R → Runtime R
  set_one_shot delay rt = record rt {
    next_id = suc rt.next_id;
    one_shots = record { id = rt.next_id; delay = delay } ∷ rt.one_shots;
  }

  -- `clearTimeout(id)`: a timer that has run, or was never set, is ignored.
  abbrev pub clear_timeout : ℕ → Runtime R → Runtime R
  clear_timeout id rt = record rt { timers = filter (λ t. not (t.id == id)) rt.timers }

  -- `new AbortController()`
  abbrev pub new_controller : Runtime R → ℕ × Runtime R
  new_controller rt = (rt.next_id, record rt { next_id = suc rt.next_id })

  -- `controller.abort()`
  abbrev pub abort : ℕ → Runtime R → Runtime R
  abort id rt = record rt { aborted = id ∷ rt.aborted }

  -- `if (this.timerId !== null) { clearTimeout(this.timerId); }`
  abbrev pub clear_timeout? : Option ℕ → Runtime R → Runtime R
  clear_timeout? none rt = rt
  clear_timeout? (some id) rt = clear_timeout id rt

  -- `if (this.abortController) { this.abortController.abort(); }`
  abbrev pub abort? : Option ℕ → Runtime R → Runtime R
  abort? none rt = rt
  abort? (some id) rt = abort id rt
