-- ===== src/Boundary.antt =====
-- `ErrorBoundary` of frontend/src/components/ErrorBoundary.ts. A text of the escape is its list of code
-- points, an ISO time is what a parameter makes of the time, and the snapshot of the telemetry, which is
-- only logged, is left out.
pub mod Escape
pub mod Retry
use distributed_file_storage.Prelude.{
  ℕ, String, Bool, true, false, Option, none, some, List, [], ◌∷◌, ◌++◌, is_some, or_text,
  if◌then◌else◌, codes, ◌==◌,
}
use distributed_file_storage.Runtime.{Runtime}
use distributed_file_storage.Runtime.Listeners.{add, delete, notify_listeners}

-- A JavaScript `Error`.
pub record ErrorObject : Type 0 where
  pub name : String
  pub message : String
  pub stack : Option String

-- What a call throws: an `Error`, or a value, by whether it counts as true, that `String` turns into a text.
pub data Raised : Type 0 where
  raised : ErrorObject → Raised
  value : (is_truthy : Bool) (text : String) → Raised

pub record ErrorRecord : Type 0 where
  pub error : ErrorObject
  pub subsystem : String
  pub timestamp : ℕ
  pub iso_time : String

-- `logged` is what `logError` has sent to the console, the newest last.
pub record ErrorBoundary : Type 0 where
  pub current_error : Option ErrorRecord
  pub listeners : List ℕ
  pub retry_callbacks : List ℕ
  pub logged : List ErrorRecord
  pub runtime : Runtime (Option ErrorRecord)

-- `err instanceof Error ? err : new Error(String(err))`
abbrev pub error_object : Raised → ErrorObject
error_object (raised e) = e
error_object (value b text) = record { name = "Error"; message = text; stack = none }

unfoldable pub log_error : ErrorRecord → ErrorBoundary → ErrorBoundary
log_error r b = record b { logged = b.logged ++ r ∷ [] }

abbrev pub broadcast : ErrorBoundary → ErrorBoundary
broadcast b = record b { runtime = notify_listeners b.listeners b.current_error b.runtime }

unfoldable pub get_error : ErrorBoundary → Option ErrorRecord
get_error b = b.current_error

unfoldable pub has_error : ErrorBoundary → Bool
has_error b = is_some b.current_error

unfoldable pub reset : ErrorBoundary → ErrorBoundary
reset b = broadcast (record b { current_error = none })

unfoldable pub subscribe : ℕ → ErrorBoundary → ErrorBoundary
subscribe l b = record b { listeners = add l b.listeners }

unfoldable pub unsubscribe : ℕ → ErrorBoundary → ErrorBoundary
unsubscribe l b = record b { listeners = delete l b.listeners }

unfoldable pub on_retry : ℕ → ErrorBoundary → ErrorBoundary
on_retry c b = record b { retry_callbacks = add c b.retry_callbacks }

unfoldable pub off_retry : ℕ → ErrorBoundary → ErrorBoundary
off_retry c b = record b { retry_callbacks = delete c b.retry_callbacks }

-- The texts that the fallback shows, in its order; `trace` is escaped, the others stand as they are.
pub record Fallback : Type 0 where
  pub subsystem : String
  pub error_name : String
  pub error_message : String
  pub timestamp : String
  pub trace : List ℕ

abbrev pub replace_all : ℕ → List ℕ → List ℕ → List ℕ
replace_all c w [] = []
replace_all c w (d ∷ s) = (if d == c then w else d ∷ []) ++ replace_all c w s

unfoldable pub escape_html : List ℕ → List ℕ
escape_html s = replace_all 39 (codes "&#039;") (
    replace_all 34 (codes "&quot;") (
      replace_all 62 (codes "&gt;")
        (replace_all 60 (codes "&lt;") (replace_all 38 (codes "&amp;") s))))

-- How a call ends.
pub data Ended (A : Type 0) : Type 0 where
  returned : A → Ended A
  threw : Raised → Ended A

-- A callback that is registered for the retry: what it does to the boundary, for it may call it, how it
-- ends, and the time at its end.
pub record Callback : Type 0 where
  pub effect : ErrorBoundary → ErrorBoundary
  pub ended : Ended Unit
  pub now : ℕ

module _ (iso : ℕ → String) where
  abbrev pub record_of : ℕ → Raised → String → ErrorRecord
  record_of now err subsystem = record {
    error = error_object err;
    subsystem = subsystem;
    timestamp = now;
    iso_time = iso now;
  }

  unfoldable pub capture_error : ℕ → Raised → String → ErrorBoundary → ErrorBoundary
  unfolding log_error
  capture_error now err subsystem b =
      let r = record_of now err subsystem in
      broadcast (log_error r (record b { current_error = some r }))

  -- One round of the loop: what the callback does to the boundary, then the `catch`.
  abbrev pub catch_retry : Ended Unit → ℕ → ErrorBoundary → ErrorBoundary
  catch_retry (returned _) now b = b
  catch_retry (threw err) now b = capture_error now err "ErrorBoundary.retry" b

  unfoldable pub retry_each : (ℕ → Callback) → List ℕ → ErrorBoundary → ErrorBoundary
  unfolding capture_error
  retry_each run [] b = b
  retry_each run (c ∷ cs) b =
      retry_each run cs (catch_retry (run c).ended (run c).now ((run c).effect b))

  unfoldable pub trigger_retry : (ℕ → Callback) → ErrorBoundary → ErrorBoundary
  unfolding reset retry_each
  trigger_retry run b = let b' = reset b in retry_each run b'.retry_callbacks b'

  module _ {T : Type 0} where
    unfoldable pub wrap : ℕ → Ended T → String → ErrorBoundary → ErrorBoundary × Option T
    unfolding capture_error
    wrap now (returned a) subsystem b = (b, some a)
    wrap now (threw err) subsystem b = (capture_error now err subsystem b, none)

  abbrev field : {A : Type 0} → (ErrorRecord → A) → A → Option ErrorRecord → A
  field get d none = d
  field get d (some r) = get r

  -- `recordOverride ?? this.currentError`
  abbrev shown_record : Option ErrorRecord → Option ErrorRecord → Option ErrorRecord
  shown_record none current = current
  shown_record (some r) current = some r

  -- `now` is the time of the rendering.
  unfoldable pub render_fallback : ℕ → Option ErrorRecord → ErrorBoundary → Fallback
  unfolding escape_html
  render_fallback now override b =
      let r = shown_record override b.current_error in
      record {
        subsystem = or_text (field (λ r. some r.subsystem) none r) "AppShell";
        error_name = or_text (field (λ r. some r.error.name) none r) "Error";
        error_message =
            or_text (field (λ r. some r.error.message) none r)
              "An unexpected fault interrupted the UI rendering pipeline.";
        timestamp = or_text (field (λ r. some r.iso_time) none r) (iso now);
        trace =
            escape_html
              (codes (or_text (field (λ r. r.error.stack) none r) "No stack trace available."));
      }
