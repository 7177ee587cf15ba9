-- ===== src/NodeTable.antt =====
-- The table of the nodes of frontend/src/components/NodeList.ts, for the nodes of the heartbeat service. The
-- fixed markup and the titles, which follow from the values beside them, are left out.
pub mod Update
pub mod Laws
use distributed_file_storage.Prelude.{
  ℕ, suc, String, str_eq, Bool, true, false, not, ◌&&◌, ◌||◌, Option, none, some, List, [], ◌∷◌,
  map, filter, length, leb, ltb, ◌==◌, or_text, if◌then◌else◌, truthy, template, decimal,
}
use distributed_file_storage.Api.{
  NodeState, NodeStatus, leader, follower, candidate, online, is_leader, is_online,
}
use distributed_file_storage.Heartbeat.Node.{NodeHeartbeatState, normalize_node_key}
use distributed_file_storage.NodeDetail.{ViewState, normal, loading, empty, error}
use distributed_file_storage.FileTable.Update.{role_text, status_text}
use distributed_file_storage.Formats.{format_time_utc, to_fixed_1}

pub data Badge : Type 0 where
  ok warn info : Badge

pub data Dot : Type 0 where
  ok muted down : Dot

-- One row. `role` and `online` also choose style classes.
pub record Row : Type 0 where
  pub key : String
  pub display_name : String
  pub selected : Bool
  pub role : NodeState
  pub badge : Badge
  pub dot : Dot
  pub status : NodeStatus
  pub latency : String
  pub timestamp : String
  pub port : String
  pub label : String

abbrev badge_of : NodeState → Badge
badge_of leader = Badge.ok
badge_of candidate = warn
badge_of follower = info

abbrev dot_of : Bool → Bool → Dot
dot_of is_online is_leader = if is_online then if is_leader then Dot.ok else muted else down

unfoldable pub latency_text : NodeHeartbeatState → String
latency_text n =
    if is_online n.status
    then if is_leader n.state
      then "+0.0 ms"
      else template ("+" ∷ to_fixed_1 n.latency_tenths ∷ " ms" ∷ [])
    else "—"

abbrev pub is_selected : Option String → NodeHeartbeatState → Bool
is_selected none n = false
is_selected (some s) n =
    if truthy s
    then str_eq s (normalize_node_key n.id) || str_eq s n.id || str_eq s n.display_name
    else false

abbrev label_text : NodeHeartbeatState → String
label_text n = template (
    n.display_name
    ∷ ": Role "
    ∷ role_text n.state
    ∷ ", Status "
    ∷ status_text n.status
    ∷ ", Latency "
    ∷ latency_text n
    ∷ ", Port "
    ∷ n.port
    ∷ ". Press Enter to view telemetry."
    ∷ [])

pub data Caption : Type 0 where
  majority_active : Caption
  quorum_lost : (active : ℕ) → Caption

-- `onlineCount >= 2`
unfoldable pub caption_of : ℕ → Caption
caption_of count = if leb 2 count then majority_active else quorum_lost count

unfoldable pub online_count : List NodeHeartbeatState → ℕ
online_count ns = length (filter (λ n. is_online n.status) ns)

pub record Table : Type 0 where
  pub count : ℕ
  pub caption : Caption
  pub rows : List Row

pub data NodePanel : Type 0 where
  skeleton : NodePanel
  -- the skeleton of the rows, under a count and a caption that an update has written
  counted_skeleton : (count : ℕ) → Caption → NodePanel
  no_nodes : NodePanel
  failed : (message : String) → NodePanel
  shown : Table → NodePanel

-- What stands in for a list without nodes; `now` is the time, in thousandths of a second.
abbrev stand_in : ℕ → String → String → NodeState → ℕ → NodeHeartbeatState
stand_in now id port state latency = record {
  id = id;
  display_name = id;
  state = state;
  status = online;
  last_heartbeat = now;
  latency_tenths = latency;
  url = none;
  port = port;
  is_pulsing = false;
  history = [];
  consecutive_missed = 0;
}

abbrev pub default_nodes : ℕ → List NodeHeartbeatState → List NodeHeartbeatState
default_nodes now [] =
    stand_in now "nodeA" ":8000" leader 0
    ∷ stand_in now "nodeB" ":8001" follower 84
    ∷ stand_in now "nodeC" ":8002" follower 121
    ∷ []
default_nodes now (n ∷ ns) = n ∷ ns

-- `sort` is the browser's stable sort by the names, in the order of its locale; `iso` is `toISOString`.
module _ (sort : List NodeHeartbeatState → List NodeHeartbeatState) (iso : ℕ → String) where
  unfoldable pub render_node_row : Option String → NodeHeartbeatState → Row
  render_node_row selected n = record {
    key = normalize_node_key n.id;
    display_name = n.display_name;
    selected = is_selected selected n;
    role = n.state;
    badge = badge_of n.state;
    dot = dot_of (is_online n.status) (is_leader n.state);
    status = n.status;
    latency = latency_text n;
    timestamp = format_time_utc iso n.last_heartbeat;
    port = n.port;
    label = label_text n;
  }

  abbrev pub rows_of : Option String → List NodeHeartbeatState → List Row
  rows_of selected ns = map (render_node_row selected) (sort ns)

  abbrev pub table_of : Option String → List NodeHeartbeatState → Table
  table_of selected ns = record {
    count = online_count (sort ns);
    caption = caption_of (online_count (sort ns));
    rows = rows_of selected ns;
  }

  unfoldable pub render_node_list :
      ℕ → List NodeHeartbeatState → ViewState → Option String → Option String → NodePanel
  render_node_list now ns loading message selected = skeleton
  render_node_list now ns empty message selected = no_nodes
  render_node_list now ns error message selected = failed (
      or_text message
        "Unable to retrieve node telemetry. Coordinator returned HTTP 503 Service Unavailable.")
  render_node_list now ns normal message selected = shown (table_of selected (default_nodes now ns))
