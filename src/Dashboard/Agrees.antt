-- ===== src/Dashboard/Agrees.antt =====
-- The screen and the error boundary agree.
use distributed_file_storage.Prelude.{
  ℕ, String, ◌≡◌, refl, sym, subst, ap, Bool, true, false, List, [], ◌∷◌, arith,
}
use distributed_file_storage.Boundary.{
  ErrorBoundary, Raised, Ended, returned, threw, has_error, capture_error, wrap, reset,
  trigger_retry, retry_each, log_error,
}
use distributed_file_storage.Dashboard.{
  Screen, dashboard, fallback, Page, render_dashboard, retry_callback, on_retry_click,
  on_reset_click, on_window_error, on_unhandled_rejection,
}

pub data Event : Type 0 where
  drawn : (now : ℕ) (drawing : Ended Unit) → Event
  retried : (now : ℕ) (drawing : Ended Unit) → Event
  cleared : (now : ℕ) (drawing : Ended Unit) → Event
  failed : (now : ℕ) (err : Raised) → Event
  rejected : (now : ℕ) (reason : Raised) → Event

abbrev pub is_fallback : Screen → Bool
is_fallback dashboard = false
is_fallback (fallback _) = true

-- The fallback is shown exactly while the boundary holds an error, and the one callback is registered.
abbrev pub IsAgreed : Page → Type 0
IsAgreed p = (is_fallback p.screen ≡ has_error p.boundary) × (p.boundary.retry_callbacks ≡ 0 ∷ [])

module _ (iso : ℕ → String) where
  abbrev pub step : Event → Page → Page
  step (drawn now drawing) p = render_dashboard iso now drawing p.boundary
  step (retried now drawing) p = on_retry_click iso now drawing p
  step (cleared now drawing) p = on_reset_click iso now drawing p
  step (failed now err) p = on_window_error iso now err p
  step (rejected now reason) p = on_unhandled_rejection iso now reason p

  abbrev pub run : List Event → Page → Page
  run [] p = p
  run (e ∷ es) p = run es (step e p)

  render_dashboard-IsAgreed :
      (now : ℕ) (drawing : Ended Unit) (b : ErrorBoundary)
      → b.retry_callbacks ≡ 0 ∷ []
      → IsAgreed (render_dashboard iso now drawing b)
  unfolding render_dashboard has_error wrap capture_error log_error
  render_dashboard-IsAgreed now (returned tt) b one = ground (arith, one)
  render_dashboard-IsAgreed now (threw err) b one = ground (arith, one)

  trigger_retry-render :
      (now : ℕ) (drawing : Ended Unit) (b : ErrorBoundary)
      → b.retry_callbacks ≡ 0 ∷ []
      → trigger_retry iso (λ c. retry_callback iso now drawing) b
        ≡ (render_dashboard iso now drawing (reset b)).boundary
  unfolding trigger_retry retry_each reset
  trigger_retry-render now drawing b one =
      ap (λ cs. retry_each iso (λ c. retry_callback iso now drawing) cs (reset b)) one

  step-IsAgreed : (e : Event) (p : Page) → IsAgreed p → IsAgreed (step e p)
  unfolding on_retry_click on_reset_click on_window_error on_unhandled_rejection capture_error
      log_error reset has_error
  step-IsAgreed (drawn now drawing) p (agrees, one) =
      render_dashboard-IsAgreed now drawing p.boundary one
  step-IsAgreed (retried now drawing) p (agrees, one) =
      let again = render_dashboard iso now drawing (reset p.boundary) in
      subst (λ b. IsAgreed (record { boundary = b; screen = again.screen }))
        (sym (trigger_retry-render now drawing p.boundary one))
        (render_dashboard-IsAgreed now drawing (reset p.boundary) one)
  step-IsAgreed (cleared now drawing) p (agrees, one) =
      render_dashboard-IsAgreed now drawing (reset p.boundary) one
  step-IsAgreed (failed now err) p (agrees, one) = (refl, one)
  step-IsAgreed (rejected now reason) p (agrees, one) = (refl, one)

  -- Once init has registered its callback and drawn the dashboard, over every sequence of drawings, clicks
  -- on the two buttons of the fallback, errors of the window and rejections, the page shows the fallback
  -- exactly while the boundary holds an error, so never a stale dashboard or a stale fault.
  pub run-IsAgreed :
      (now : ℕ) (drawing : Ended Unit) (b : ErrorBoundary) (es : List Event)
      → b.retry_callbacks ≡ 0 ∷ []
      → IsAgreed (run es (render_dashboard iso now drawing b))
  run-IsAgreed now drawing b es one =
      go es (render_dashboard iso now drawing b) (render_dashboard-IsAgreed now drawing b one)
    where
      go : (es : List Event) (p : Page) → IsAgreed p → IsAgreed (run es p)
      go [] p h = h
      go (e ∷ es) p h = go es (step e p) (step-IsAgreed e p h)
