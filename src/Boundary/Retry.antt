-- ===== src/Boundary/Retry.antt =====
-- The retry of frontend/src/components/ErrorBoundary.ts, and the guard of a rendering.
use mathlib.Core.List.{append_assoc, append-nil}
use distributed_file_storage.Prelude.{
  ℕ, String, ◌≡◌, refl, sym, ap, ◌∙◌, Option, none, some, List, [], ◌∷◌, ◌++◌, map,
}
use distributed_file_storage.Runtime.Listeners.Laws.{notify_listeners_reaches_all}
use distributed_file_storage.Boundary.{
  ErrorRecord, ErrorBoundary, Ended, returned, threw, record_of, reset, capture_error, retry_each,
  catch_retry, Callback, trigger_retry, wrap, log_error, Raised,
}

-- What the listeners are told, one value after another.
abbrev pub told : List ℕ → List (Option ErrorRecord) → List (ℕ × Option ErrorRecord)
told ls [] = []
told ls (e ∷ es) = map (λ l. (l, e)) ls ++ told ls es

-- The last of the records, or what was there.
abbrev pub last_or : Option ErrorRecord → List ErrorRecord → Option ErrorRecord
last_or e [] = e
last_or e (r ∷ rs) = last_or (some r) rs

-- A boundary after the capture of some errors, one after another.
abbrev pub HasCaptured : List ErrorRecord → ErrorBoundary → ErrorBoundary → Type 0
HasCaptured rs b after =
    (after.current_error ≡ last_or b.current_error rs)
    × (after.logged ≡ b.logged ++ rs)
    × (after.runtime.delivered ≡ b.runtime.delivered ++ told b.listeners (map some rs))
    × (after.listeners ≡ b.listeners)
    × (after.retry_callbacks ≡ b.retry_callbacks)

last_or-append :
    (e : Option ErrorRecord) (rs ss : List ErrorRecord)
    → last_or e (rs ++ ss) ≡ last_or (last_or e rs) ss
last_or-append e [] ss = refl
last_or-append e (r ∷ rs) ss = last_or-append (some r) rs ss

told-append :
    (ls : List ℕ) (rs ss : List ErrorRecord)
    → told ls (map some (rs ++ ss)) ≡ told ls (map some rs) ++ told ls (map some ss)
told-append ls [] ss = refl
told-append ls (r ∷ rs) ss = rw (told-append ls rs ss, append_assoc)

HasCaptured-trans :
    (rs ss : List ErrorRecord) (a b c : ErrorBoundary)
    → HasCaptured rs a b
    → HasCaptured ss b c
    → HasCaptured (rs ++ ss) a c
HasCaptured-trans rs ss a b c (e, l, d, s, r) (e', l', d', s', r') = (
  e' ∙ ap (λ x. last_or x ss) e ∙ sym (last_or-append a.current_error rs ss),
  l' ∙ ap (λ x. x ++ ss) l ∙ append_assoc a.logged rs ss,
  d'
      ∙ ap (λ x. x ++ told b.listeners (map some ss)) d
      ∙ append_assoc a.runtime.delivered (told a.listeners (map some rs))
          (told b.listeners (map some ss))
      ∙ ap (λ ls. a.runtime.delivered ++ (told a.listeners (map some rs) ++ told ls (map some ss)))
          s
      ∙ ap (λ x. a.runtime.delivered ++ x) (sym (told-append a.listeners rs ss)),
  s' ∙ s,
  r' ∙ r,
)

pub HasCaptured-refl : (b : ErrorBoundary) → HasCaptured [] b b
HasCaptured-refl b = (refl, sym (append-nil _), sym (append-nil _), refl, refl)

module _ (iso : ℕ → String) where
  -- The record of a call that fails.
  abbrev pub failure : {T : Type 0} → Ended T → ℕ → String → List ErrorRecord
  failure (returned _) now subsystem = []
  failure (threw err) now subsystem = record_of iso now err subsystem ∷ []

  capture_error-HasCaptured :
      (now : ℕ) (err : Raised) (subsystem : String) (b : ErrorBoundary)
      → HasCaptured (record_of iso now err subsystem ∷ []) b (capture_error iso now err subsystem b)
  unfolding capture_error log_error
  capture_error-HasCaptured now err subsystem b =
      let r = record_of iso now err subsystem in
      let reached = notify_listeners_reaches_all b.listeners (some r) b.runtime in
      (refl, refl, reached.0 ∙ ap (λ x. b.runtime.delivered ++ x) (sym (append-nil _)), refl, refl)

  catch_retry-HasCaptured :
      (e : Ended Unit) (now : ℕ) (b : ErrorBoundary)
      → HasCaptured (failure e now "ErrorBoundary.retry") b (catch_retry iso e now b)
  catch_retry-HasCaptured (returned _) now b = HasCaptured-refl b
  catch_retry-HasCaptured (threw err) now b =
      capture_error-HasCaptured now err "ErrorBoundary.retry" b

  -- A guarded rendering returns what the function returns, and captures what it throws.
  pub wrap-HasCaptured :
      {T : Type 0} (now : ℕ) (e : Ended T) (subsystem : String) (b : ErrorBoundary)
      → HasCaptured (failure e now subsystem) b (wrap iso now e subsystem b).0
  unfolding wrap
  wrap-HasCaptured now (returned a) subsystem b = HasCaptured-refl b
  wrap-HasCaptured now (threw err) subsystem b = capture_error-HasCaptured now err subsystem b

  -- The records of a retry: those that each callback captures itself, then its failure.
  abbrev pub captures : (ℕ → Callback) → (ℕ → List ErrorRecord) → List ℕ → List ErrorRecord
  captures run own [] = []
  captures run own (c ∷ cs) =
      (own c ++ failure (run c).ended (run c).now "ErrorBoundary.retry") ++ captures run own cs

  retry_each-HasCaptured :
      (run : ℕ → Callback) (own : ℕ → List ErrorRecord) (cs : List ℕ) (b : ErrorBoundary)
      → ((c : ℕ) (b : ErrorBoundary) → HasCaptured (own c) b ((run c).effect b))
      → HasCaptured (captures run own cs) b (retry_each iso run cs b)
  unfolding retry_each
  retry_each-HasCaptured run own [] b h = HasCaptured-refl b
  retry_each-HasCaptured run own (c ∷ cs) b h =
      let called = (run c).effect b in
      let caught = catch_retry iso (run c).ended (run c).now called in
      HasCaptured-trans _ _ b caught (retry_each iso run cs caught)
        (HasCaptured-trans _ _ b called caught (h c b)
          (catch_retry-HasCaptured (run c).ended (run c).now called))
        (retry_each-HasCaptured run own cs caught h)

  -- A retry runs every callback, also after one that fails, and keeps each callback registered. Where a
  -- callback does nothing to the boundary but capture errors: the boundary then holds the last error that a
  -- callback captured or ended with, or none; the log has all of them; and every listener is told of the
  -- reset first and then of each error.
  pub trigger_retry_outcome :
      (run : ℕ → Callback) (own : ℕ → List ErrorRecord) (b : ErrorBoundary)
      → ((c : ℕ) (b : ErrorBoundary) → HasCaptured (own c) b ((run c).effect b))
      → let after = trigger_retry iso run b in
        let rs = captures run own b.retry_callbacks in
        (after.current_error ≡ last_or none rs)
        × (after.logged ≡ b.logged ++ rs)
        × (after.runtime.delivered ≡ b.runtime.delivered ++ told b.listeners (none ∷ map some rs))
        × (after.retry_callbacks ≡ b.retry_callbacks)
  unfolding trigger_retry
  trigger_retry_outcome run own b h =
      let rs = captures run own b.retry_callbacks in
      let (current, logged, delivered, listeners, callbacks) =
        retry_each-HasCaptured run own b.retry_callbacks (reset b) h in
      let reached = notify_listeners_reaches_all b.listeners none b.runtime in
      (
        current,
        logged,
        delivered
            ∙ ap (λ d. d ++ told b.listeners (map some rs)) reached.0
            ∙ append_assoc b.runtime.delivered (map (λ l. (l, none)) b.listeners)
                (told b.listeners (map some rs)),
        callbacks,
      )
