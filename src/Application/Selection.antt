-- ===== src/Application/Selection.antt =====
-- The listeners of frontend/src/main.ts for clicks and keys: attachInteractiveNodeSelection and
-- trapDrawerFocus. A target of an event is what the listener finds around it.
pub mod Keys
use distributed_file_storage.Prelude.{
  ℕ, String, Bool, true, false, ◌&&◌, ◌||◌, Option, none, some, List, [], ◌∷◌, ◌++◌, if◌then◌else◌,
  truthy?, or_else,
}
use distributed_file_storage.NodeDetail.{normal}
use distributed_file_storage.Boundary.{Ended}
use distributed_file_storage.Dashboard as Dashboard
use distributed_file_storage.Dashboard.{dashboard, fallback, on_retry_click, on_reset_click}
use distributed_file_storage.Focus as Focus
use distributed_file_storage.Focus.{Container, trap_focus}
use distributed_file_storage.Application.{Application, Browser, open_detail, close_detail, draw}

-- `row` and `lane` are the `data-node` of the closest one, absent without one or where it has none.
pub record Target : Type 0 where
  pub boundary_retry : Bool
  pub boundary_reset : Bool
  pub retry_cluster : Bool
  pub reconnect_rail : Bool
  pub retry_nodes : Bool
  -- the close button, the dismissal, or the backdrop itself
  pub close : Bool
  -- the refresh or the retry of the drawer
  pub refresh : Bool
  pub row : Option String
  pub lane : Option String

-- The requests that the listeners begin.
pub data Request : Type 0 where
  node_detail : (id : String) → Request
  check_health cluster_retry heartbeat_retry refresh_files : Request

pub data Button : Type 0 where
  requery_status reconnect_rail retry_fetch : Button

abbrev pub waiting_text : Button → String
waiting_text requery_status = "Querying..."
waiting_text reconnect_rail = "Connecting..."
waiting_text retry_fetch = "Retrying..."

abbrev pub ready_text : Button → String
ready_text requery_status = "Re-query Status"
ready_text reconnect_rail = "Reconnect Rail"
ready_text retry_fetch = "Retry Fetch"

pub record Texts : Type 0 where
  pub requery_status : String
  pub reconnect_rail : String
  pub retry_fetch : String

abbrev set_text : Button → String → Texts → Texts
set_text requery_status s t = record t { requery_status = s }
set_text reconnect_rail s t = record t { reconnect_rail = s }
set_text retry_fetch s t = record t { retry_fetch = s }

-- `requests` are those begun so far; `prevented` says that the event at hand is handled.
pub record Session : Type 0 where
  pub application : Application
  pub boundary : Dashboard.Page
  pub texts : Texts
  pub requests : List Request
  pub prevented : Bool

abbrev recovery : List Request
recovery = check_health ∷ cluster_retry ∷ heartbeat_retry ∷ refresh_files ∷ []

-- One round of requests for each callback that is registered.
abbrev rounds : List ℕ → List Request
rounds [] = []
rounds (c ∷ cs) = recovery ++ rounds cs

abbrev is_dashboard : Dashboard.Screen → Bool
is_dashboard dashboard = true
is_dashboard (fallback _) = false

-- A key of the keyboard, as far as the listeners tell keys apart.
pub data Key : Type 0 where
  escape enter space : Key
  tab : (shift : Bool) → Key
  other : Key

abbrev is_select : Key → Bool
is_select enter = true
is_select space = true
is_select _ = false

abbrev pub has_selection : Session → Bool
has_selection s = truthy? s.application.shell.selected_node_id

-- `now` is the time of the event; `drawing` is how a drawing of the dashboard ends.
module _ (w : Browser) (now : ℕ) where
  abbrev pub opening : String → Session → Session
  opening id s = record s {
    application = (open_detail w now id s.application).0;
    requests = s.requests ++ node_detail id ∷ [];
    prevented = true;
  }

  abbrev pub closing : Session → Session
  closing s = record s { application = close_detail w now s.application; prevented = true }

  abbrev drawn : Dashboard.Page → Application → Application
  drawn p a = if is_dashboard p.screen then draw w now a else a

  unfoldable pub on_boundary_retry : Ended Unit → Session → Session
  on_boundary_retry drawing s =
      let p = on_retry_click w.iso now drawing s.boundary in
      record s {
        boundary = p;
        application = drawn p s.application;
        requests = s.requests ++ rounds s.boundary.boundary.retry_callbacks;
        prevented = true;
      }

  abbrev deselected : Application → Application
  deselected a = record a {
    shell = record a.shell {
      current_view_state = normal;
      selected_node_id = none;
      selected_node_detail = none;
    };
  }

  unfoldable pub on_boundary_reset : Ended Unit → Session → Session
  on_boundary_reset drawing s =
      let p = on_reset_click w.iso now drawing s.boundary in
      record s {
        boundary = p;
        application = drawn p (deselected s.application);
        requests = s.requests ++ recovery;
        prevented = true;
      }

  abbrev retrying : Button → Request → Session → Session
  retrying b r s = record s {
    texts = set_text b (waiting_text b) s.texts;
    requests = s.requests ++ r ∷ [];
    prevented = true;
  }

  abbrev refreshed : Option String → Session → Session
  refreshed none s = record s { prevented = true }
  refreshed (some id) s = opening id s

  -- The selection of the closest row, or else of the closest lane.
  unfoldable pub select_node : Target → Session → Session
  select_node t s =
      if truthy? t.row
      then opening (or_else t.row "") s
      else if truthy? t.lane
      then opening (or_else t.lane "") s
      else s

  unfoldable pub on_click : Ended Unit → Target → Session → Session
  unfolding on_boundary_retry on_boundary_reset select_node
  on_click drawing t s =
      let refreshed =
        if has_selection s
        then refreshed s.application.shell.selected_node_id s
        else record s { prevented = true } in
      if t.boundary_retry
      then on_boundary_retry drawing s
      else if t.boundary_reset
      then on_boundary_reset drawing s
      else if t.retry_cluster
      then retrying requery_status cluster_retry s
      else if t.reconnect_rail
      then retrying reconnect_rail heartbeat_retry s
      else if t.retry_nodes
      then retrying retry_fetch heartbeat_retry s
      else if t.close
      then closing s
      else if t.refresh
      then refreshed
      else select_node t s

  -- The end of a request that a button began, whichever it is.
  unfoldable pub on_settled : Button → Session → Session
  on_settled b s = record s { texts = set_text b (ready_text b) s.texts }

  -- The listener of `app-main`.
  unfoldable pub on_main_keydown : Key → Target → Session → Session
  unfolding select_node
  on_main_keydown escape t s = if has_selection s then closing s else s
  on_main_keydown k t s = if is_select k then select_node t s else s

  abbrev trapped : Option Container → Bool → Session → Session
  trapped none shift s = s
  trapped (some c) shift s =
      let (d, handled) = trap_focus c (Focus.tab shift) s.application.document in
      record s {
        application = record s.application { document = d };
        prevented = s.prevented || handled;
      }

  -- `panel` is the drawer, `none` where the page has none.
  unfoldable pub trap_drawer_focus : Option Container → Key → Session → Session
  trap_drawer_focus panel (tab shift) s = if has_selection s then trapped panel shift s else s
  trap_drawer_focus panel k s = s

  -- The listener of the window.
  unfoldable pub on_window_keydown : Option Container → Key → Session → Session
  unfolding trap_drawer_focus
  on_window_keydown panel escape s = if has_selection s then closing s else s
  on_window_keydown panel (tab shift) s =
      if has_selection s then trap_drawer_focus panel (tab shift) s else s
  on_window_keydown panel k s = s

  -- A key that is pressed inside `app-main` goes through both listeners.
  unfoldable pub on_keydown : Option Container → Key → Target → Session → Session
  unfolding on_main_keydown on_window_keydown
  on_keydown panel k t s =
      on_window_keydown panel k (on_main_keydown k t (record s { prevented = false }))
