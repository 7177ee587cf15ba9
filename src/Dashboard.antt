-- ===== src/Dashboard.antt =====
-- The page of frontend/src/main.ts under the error boundary: renderDashboard, the retry that init registers,
-- and the listeners of the window for errors. A rendering is how its function ends, at some time; its text is
-- never empty, and what it draws is in the parts of the page, as are the drawer's variables, which a click
-- on the reset button clears too.
pub mod Agrees
use distributed_file_storage.Prelude.{
  ℕ, String, Bool, true, false, ◌||◌, not, Option, none, some, is_some, if◌then◌else◌, or_text,
}
use distributed_file_storage.Boundary.{
  ErrorBoundary, ErrorObject, Raised, raised, value, Ended, returned, threw, Callback, Fallback,
  has_error, capture_error, wrap, reset, trigger_retry, render_fallback,
}

pub data Screen : Type 0 where
  dashboard : Screen
  fallback : Fallback → Screen

pub record Page : Type 0 where
  pub boundary : ErrorBoundary
  pub screen : Screen

-- `reason instanceof Error ? reason : new Error(String(reason || 'Unhandled Promise rejection'))`
abbrev rejection_error : Raised → Raised
rejection_error (raised e) = raised e
rejection_error (value is_truthy text) =
    value true (if is_truthy then text else "Unhandled Promise rejection")

-- `iso` is `toISOString`.
module _ (iso : ℕ → String) where
  unfoldable pub render_dashboard : ℕ → Ended Unit → ErrorBoundary → Page
  render_dashboard now drawing b =
      let (b', content) = wrap iso now drawing "renderDashboard" b in
      if has_error b
      then record { boundary = b; screen = fallback (render_fallback iso now none b) }
      else if has_error b' || not (is_some content)
      then record { boundary = b'; screen = fallback (render_fallback iso now none b') }
      else record { boundary = b'; screen = dashboard }

  -- The callback that `init` registers, which draws the dashboard and begins requests.
  abbrev pub retry_callback : ℕ → Ended Unit → Callback
  retry_callback now drawing = record {
    effect = λ b. (render_dashboard now drawing b).boundary;
    ended = returned tt;
    now = now;
  }

  unfoldable pub on_retry_click : ℕ → Ended Unit → Page → Page
  on_retry_click now drawing p = record {
    boundary = trigger_retry iso (λ c. retry_callback now drawing) p.boundary;
    screen = (render_dashboard now drawing (reset p.boundary)).screen;
  }

  unfoldable pub on_reset_click : ℕ → Ended Unit → Page → Page
  on_reset_click now drawing p = render_dashboard now drawing (reset p.boundary)

  abbrev captured : ℕ → Raised → String → Page → Page
  captured now err subsystem p =
      let b = capture_error iso now err subsystem p.boundary in
      record { boundary = b; screen = fallback (render_fallback iso now none b) }

  unfoldable pub on_window_error : ℕ → Raised → Page → Page
  on_window_error now err p = captured now err "window.onerror" p

  unfoldable pub on_unhandled_rejection : ℕ → Raised → Page → Page
  on_unhandled_rejection now reason p = captured now (rejection_error reason) "unhandledrejection" p
