-- ===== src/Tests/Panels.antt =====
-- Runs of the error boundary, of the panel of the files and of the gestures on it.
use distributed_file_storage.Prelude.{
  ℕ, String, Option, ◌≡◌, ◌≢◌, ◌↔◌, ◌⊎◌, refl, Bool, true, false, none, some, List, [], ◌∷◌, ◌++◌,
  map, All, codes, ◌==◌, inl,
}
use distributed_file_storage.Api.{FileInfo, no_majority, follower, offline}
use distributed_file_storage.Heartbeat.Node.{NodeHeartbeatState}
use distributed_file_storage.Tests.{idle, report, notes}
use distributed_file_storage.Boundary.{
  ErrorBoundary, ErrorRecord, Raised, value, Callback, returned, threw, escape_html, wrap,
  trigger_retry,
}
use distributed_file_storage.Boundary.Escape.{unescape, IsPlain, unescape-escape_html}
use distributed_file_storage.Boundary.Retry.{
  failure, captures, last_or, told, HasCaptured, HasCaptured-refl, wrap-HasCaptured,
  trigger_retry_outcome,
}
use distributed_file_storage.Files.{File, FileService}
use distributed_file_storage.Files as Files
use distributed_file_storage.Handlers.{
  Gesture, pick, click_download, click_delete, click_confirm, drop, Page, handle_all,
}
use distributed_file_storage.Dashboard.{render_dashboard}
use distributed_file_storage.Dashboard.Agrees as Fault
use distributed_file_storage.Dashboard.Agrees.{run-IsAgreed}
use distributed_file_storage.Handlers.Guard.{OnlyReads, handle_all-OnlyReads}
use distributed_file_storage.NodeDetail.{normal}
use distributed_file_storage.FileTable.{a, b, c}
use distributed_file_storage.FileTable.Row.{
  replicated_badge, offered, is_confirming, is_downloading, is_deleting, render_file_row,
}
use distributed_file_storage.FileTable.Ladder.{
  IsReachable, HasReachable, replicated_iff, idle_row_offers,
}
use distributed_file_storage.FileTable.Panel.{
  Props, View, shown, render_upload_button, nothing_stored, render_file_panel,
}
use distributed_file_storage.FileTable.Update.{
  table_signature, table_of, IsKeptButton, update_file_panel_dom, update_file_panel-eq-render,
}

unescape-escape_html_example :
    (unescape (escape_html (codes "a < b & 'c' &lt;")) ≡ codes "a < b & 'c' &lt;")
    × All IsPlain (escape_html (codes "a < b & 'c' &lt;"))
unescape-escape_html_example = unescape-escape_html (codes "a < b & 'c' &lt;")

-- A clock that never advances.
abbrev midnight : ℕ → String
midnight now = "1970-01-01T00:00:00.000Z"

-- Two listeners, and two callbacks for the retry.
abbrev boundary : ErrorBoundary
boundary = record {
  current_error = none;
  listeners = 1 ∷ 2 ∷ [];
  retry_callbacks = 4 ∷ 5 ∷ [];
  logged = [];
  runtime = idle;
}

abbrev oops : Raised
oops = value true "oops"

-- The callback 4 renders under the guard, and the rendering fails; any other throws.
abbrev callback_of : Bool → Callback
callback_of true = record {
  effect = λ s. (wrap midnight {T = Unit} 6 (threw oops) "renderDashboard" s).0;
  ended = returned tt;
  now = 7;
}
callback_of false = record { effect = λ s. s; ended = threw oops; now = 8 }

abbrev own_of : Bool → List ErrorRecord
own_of true = failure midnight {T = Unit} (threw oops) 6 "renderDashboard"
own_of false = []

callback_of-HasCaptured :
    (renders : Bool) (s : ErrorBoundary)
    → HasCaptured (own_of renders) s ((callback_of renders).effect s)
callback_of-HasCaptured true s =
    wrap-HasCaptured midnight {T = Unit} 6 (threw oops) "renderDashboard" s
callback_of-HasCaptured false s = HasCaptured-refl s

trigger_retry_outcome_example :
    let after = trigger_retry midnight (λ n. callback_of (n == 4)) boundary in
    let rs =
      captures midnight
        (λ n. callback_of (n == 4))
        (λ n. own_of (n == 4))
        boundary.retry_callbacks in
    (after.current_error ≡ last_or none rs)
    × (after.logged ≡ boundary.logged ++ rs)
    × (after.runtime.delivered
        ≡ boundary.runtime.delivered ++ told boundary.listeners (none ∷ map some rs))
    × (after.retry_callbacks ≡ boundary.retry_callbacks)
trigger_retry_outcome_example =
    trigger_retry_outcome midnight (λ n. callback_of (n == 4)) (λ n. own_of (n == 4)) boundary
      (λ n s. callback_of-HasCaptured (n == 4) s)

abbrev start : Page
start = record {
  files = record (Files.new 0) {
    files = report ∷ notes ∷ [];
    total_files = 2;
    total_size_bytes = 42;
  };
  runtime = idle;
  drag_counter = 0;
  drag_active = false;
  picker_open = false;
  requests = [];
}

abbrev clicks : List Gesture
clicks =
    pick (record { name = "cat.png"; size = 900 } ∷ [])
    ∷ click_delete "f1"
    ∷ click_confirm "f1"
    ∷ click_download "f2" none
    ∷ drop (record { name = "dog.png"; size = 9 } ∷ [])
    ∷ []

handle_all-OnlyReads_example : OnlyReads start (handle_all (some no_majority) clicks start)
handle_all-OnlyReads_example = handle_all-OnlyReads clicks start (tt, (tt, (tt, (tt, (tt, tt)))))

abbrev lonely : FileInfo
lonely = record report { replicas = "nodeB" ∷ [] }

abbrev lost_b : NodeHeartbeatState
lost_b = record {
  id = "nodeB";
  display_name = "Node B";
  state = follower;
  status = offline;
  last_heartbeat = 0;
  latency_tenths = 0;
  url = none;
  port = ":8001";
  is_pulsing = false;
  history = [];
  consecutive_missed = 4;
}

replicated_iff_example :
    ((render_file_row none none (lost_b ∷ []) none lonely).badge ≡ replicated_badge) ↔ (
      IsReachable lonely (lost_b ∷ []) a
      × IsReachable lonely (lost_b ∷ []) b
      × IsReachable lonely (lost_b ∷ []) c)
replicated_iff_example = replicated_iff none none (lost_b ∷ []) none lonely (λ e. cc) (λ e. cc)

idle_row_offers_example :
    let actions = (render_file_row none none (lost_b ∷ []) (some no_majority) lonely).actions in
    (paused : Bool) × ((paused ≡ true) ↔ (Option.some no_majority ≡ some no_majority))
    × (HasReachable lonely (lost_b ∷ []) → actions ≡ offered false false paused false)
    × (¬ HasReachable lonely (lost_b ∷ []) → actions ≡ offered true false paused false)
unfolding is_confirming is_downloading is_deleting
idle_row_offers_example =
    idle_row_offers none none (lost_b ∷ []) (some no_majority) lonely refl refl refl

abbrev props : Props
props = record {
  files = report ∷ notes ∷ [];
  total_files = none;
  total_size_bytes = none;
  search_query = "";
  upload = none;
  download = none;
  delete = none;
  nodes = [];
  cluster = none;
}

abbrev blank : View
blank = record {
  count = (0, 0);
  notice = none;
  search = "";
  upload_button = render_upload_button false;
  overlay_paused = true;
  cards = record { upload = none; download_error = none; delete_error = none };
  table = nothing_stored;
}

update_file_panel-eq-render_example :
    ((update_file_panel_dom false props (record { signature = ""; panel = shown blank })).panel
      ≡ render_file_panel normal none props)
    ↔ (((table_signature props ≢ "") ⊎ (blank.table ≡ table_of props.files props))
        × IsKeptButton false blank.upload_button
        × (blank.overlay_paused ≡ false))
update_file_panel-eq-render_example = update_file_panel-eq-render props "" blank (inl (λ e. cc))

abbrev watched : ErrorBoundary
watched = record boundary { retry_callbacks = 0 ∷ [] }

-- A fault of the window, a retry that fails, and one that does not.
abbrev faults : List Fault.Event
faults = Fault.failed 5 oops ∷ Fault.retried 6 (threw oops) ∷ Fault.retried 7 (returned tt) ∷ []

run-IsAgreed_example :
    Fault.IsAgreed (Fault.run midnight faults (render_dashboard midnight 4 (returned tt) watched))
run-IsAgreed_example = run-IsAgreed midnight 4 (returned tt) watched faults refl
