-- ===== src/Shell.antt =====
-- The state of frontend/src/main.ts: the drawer of a node's details and the view of the page. The page's
-- root elements are there. What the drawer's calls do to the rail and the list is in Application, and so is
-- the timer that moves the focus into the drawer after a rendering.
pub mod Drawer
pub mod Events
pub mod Return
pub mod Keeps
use distributed_file_storage.Prelude.{
  ℕ, String, Bool, true, false, not, ◌&&◌, ◌||◌, Option, none, some, List, [], ◌∷◌, or_text,
  truthy?, is_some, if◌then◌else◌,
}
use distributed_file_storage.Api.{
  NodeDetailResponse, Thrown, message_or, Outcome, resolved, rejected,
}
use distributed_file_storage.Heartbeat.Node.{NodeHeartbeatState}
use distributed_file_storage.Focus as Focus
use distributed_file_storage.Focus.{
  FocusManager, Document, capture_active_focus, restore_previous_focus,
}
use distributed_file_storage.NodeDetail.{
  ViewState, normal, loading, error, NodeDetailProps, Panel, closed, lower, same_codes,
  render_node_detail_panel, update_node_detail_dom,
}

-- The variables of the module, the focus manager, and the panel as the page shows it.
pub record Shell : Type 0 where
  pub current_view_state : ViewState
  pub selected_node_id : Option String
  pub selected_node_detail : Option NodeDetailResponse
  pub selected_node_latency : Option ℕ
  pub is_detail_loading : Bool
  pub detail_error_message : Option String
  pub focus_manager : FocusManager
  pub panel : Panel

unfoldable pub new : Shell
new = record {
  current_view_state = normal;
  selected_node_id = none;
  selected_node_detail = none;
  selected_node_latency = none;
  is_detail_loading = false;
  detail_error_message = none;
  focus_manager = Focus.new;
  panel = closed;
}

-- `n.id.toLowerCase() === nodeId.toLowerCase() || n.displayName.toLowerCase() === nodeId.toLowerCase()`
abbrev is_named : String → NodeHeartbeatState → Bool
is_named id n = same_codes (lower n.id) (lower id) || same_codes (lower n.display_name) (lower id)

unfoldable pub find_node : String → List NodeHeartbeatState → Option NodeHeartbeatState
find_node id [] = none
find_node id (n ∷ ns) = let rest = find_node id ns in if is_named id n then some n else rest

-- The details that stand in for a response; the term and the index are constants of the program.
unfoldable pub detail_of_node : NodeHeartbeatState → NodeDetailResponse
detail_of_node n = record {
  node = record {
    id = or_text (some n.display_name) n.id;
    state = n.state;
    status = n.status;
    last_heartbeat = n.last_heartbeat;
    url = n.url;
  };
  term = some 4;
  commit_index = some 1042;
  peers = none;
}

-- `isDetailLoading ? 'loading' : detailErrorMessage ? 'error' : 'normal'`
unfoldable pub detail_state : Shell → ViewState
detail_state s =
    if s.is_detail_loading
    then loading
    else if truthy? s.detail_error_message
    then error
    else normal

unfoldable pub detail_props : Shell → NodeDetailProps
unfolding detail_state
detail_props s = record {
  node_id = s.selected_node_id;
  node_detail = s.selected_node_detail;
  latency = s.selected_node_latency;
  is_open = is_some s.selected_node_id;
  state = detail_state s;
  error_message = s.detail_error_message;
}

abbrev cached_detail :
    Option NodeHeartbeatState → Option NodeDetailResponse → Option NodeDetailResponse
cached_detail none detail = detail
cached_detail (some n) detail = some (detail_of_node n)

abbrev latency_of : Option NodeHeartbeatState → Option ℕ → Option ℕ
latency_of none latency = latency
latency_of (some n) latency = some n.latency_tenths

-- The state that `openNodeDetail` first renders.
abbrev pub opened : Document → String → Option NodeHeartbeatState → Shell → Shell
opened d id cached s = record s {
  focus_manager = capture_active_focus d s.focus_manager;
  selected_node_id = some id;
  detail_error_message = none;
  selected_node_detail = cached_detail cached s.selected_node_detail;
  selected_node_latency = latency_of cached s.selected_node_latency;
  is_detail_loading = true;
}

-- What `openNodeDetail` sets after the `await`: the rest of the `try`, or the `catch`.
abbrev pub answered : Option NodeHeartbeatState → Outcome NodeDetailResponse → Shell → Shell
answered cached (resolved detail) s = record s {
  selected_node_detail = some detail;
  selected_node_latency = latency_of cached s.selected_node_latency;
  is_detail_loading = false;
}
answered cached (rejected err) s = record s {
  is_detail_loading = false;
  detail_error_message =
      if is_some s.selected_node_detail
      then s.detail_error_message
      else some (message_or "Node telemetry unreachable" err);
}

abbrev pub cleared : Shell → Shell
cleared s = record s {
  selected_node_id = none;
  selected_node_detail = none;
  selected_node_latency = none;
  is_detail_loading = false;
  detail_error_message = none;
}

-- The props that the listener of the heartbeats passes on.
abbrev pub beat_props : String → NodeHeartbeatState → NodeDetailProps
beat_props id n = record {
  node_id = some id;
  node_detail = some (detail_of_node n);
  latency = some n.latency_tenths;
  is_open = true;
  state = normal;
  error_message = none;
}

abbrev pub is_normal : ViewState → Bool
is_normal normal = true
is_normal _ = false

-- `url_port` is the browser's URL parser; `now` is the time at the rendering.
module _ (url_port : String → Option String) where
  unfoldable pub render_node_detail_container : ℕ → Shell → Shell
  unfolding detail_props
  render_node_detail_container now s = record s {
    panel = render_node_detail_panel url_port now (detail_props s);
  }

  -- `openNodeDetail` up to the `await`, with the cached node, which it keeps.
  unfoldable pub begin_open :
      ℕ → Document → List NodeHeartbeatState → String → Shell → Shell × Option NodeHeartbeatState
  unfolding render_node_detail_container
  begin_open now d nodes id s =
      let cached = find_node id nodes in
      (render_node_detail_container now (opened d id cached s), cached)

  -- `openNodeDetail` after the `await`.
  unfoldable pub finish_open :
      ℕ → Option NodeHeartbeatState → Outcome NodeDetailResponse → Shell → Shell
  unfolding render_node_detail_container
  finish_open now cached o s = render_node_detail_container now (answered cached o s)

  unfoldable pub close_node_detail : ℕ → Document → Shell → Shell × Document
  unfolding render_node_detail_container
  close_node_detail now d s =
      let s' = render_node_detail_container now (cleared s) in
      let (m, d', done) = restore_previous_focus d s'.focus_manager in
      (record s' { focus_manager = m }, d')

  abbrev pub with_beat : ℕ → String → Option NodeHeartbeatState → Shell → Shell
  with_beat now id none s = s
  with_beat now id (some n) s =
      let s' = record s {
        selected_node_detail = some (detail_of_node n);
        selected_node_latency = some n.latency_tenths;
      } in
      record s' { panel = update_node_detail_dom url_port now (beat_props id n) s'.panel }

  abbrev pub beat_selected : ℕ → List NodeHeartbeatState → Option String → Shell → Shell
  beat_selected now nodes none s = s
  beat_selected now nodes (some id) s =
      if truthy? (some id) then with_beat now id (find_node id nodes) s else s

  -- What the listener of the heartbeat service does to the drawer; `has_error` is the error boundary's.
  unfoldable pub on_heartbeats : ℕ → Bool → List NodeHeartbeatState → Shell → Shell
  on_heartbeats now has_error nodes s =
      if not (is_normal s.current_view_state) || has_error
      then s
      else beat_selected now nodes s.selected_node_id s
