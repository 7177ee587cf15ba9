-- ===== src/Rail.antt =====
-- The heartbeat rail of frontend/src/components/HeartbeatRail.ts: a lane as data, its rendering, and the
-- update of the lanes in place. Of a title the values are kept; a lane's own key is its node's identity.
pub mod Ticks
pub mod Shows
use distributed_file_storage.Prelude.{
  ℕ, suc, String, str_eq, Bool, true, false, not, ◌&&◌, ◌||◌, Option, none, some, List, [], ◌∷◌,
  map, length, replicate, ltb, ◌==◌, or_text, if◌then◌else◌, truthy?, codes, includes, is_some,
}
use distributed_file_storage.Api.{NodeState, leader, follower, online, is_leader, is_online}
use distributed_file_storage.NodeDetail.{ViewState, normal, loading, empty, error}
use distributed_file_storage.Heartbeat.Node.{
  PulseTickType, ok, NodeHeartbeatState, normalize_node_key,
}

pub record Tick : Type 0 where
  pub kind : PulseTickType
  pub pulses : Bool

-- `offset` is in tenths of a millisecond and absent for a node that is offline.
pub record Live : Type 0 where
  pub online : Bool
  pub role : NodeState
  pub selected : Bool
  pub spoken_name : String
  pub ticks : List Tick
  pub offset : Option ℕ
  pub port : String

-- `name` and `title_online` are the texts that only a rendering writes.
pub record Lane : Type 0 where
  pub id : String
  pub name : String
  pub title_online : Bool
  pub live : Live

-- Every tick but the last is still.
abbrev ticks_of : Bool → List PulseTickType → List Tick
ticks_of pulsing [] = []
ticks_of pulsing (t ∷ []) = record { kind = t; pulses = pulsing } ∷ []
ticks_of pulsing (t ∷ u ∷ ts) = record { kind = t; pulses = false } ∷ ticks_of pulsing (u ∷ ts)

-- `history.length > 0 ? history : Array(20).fill('ok')`
abbrev pub history_or : List PulseTickType → List PulseTickType
history_or [] = replicate 20 ok
history_or (t ∷ ts) = t ∷ ts

unfoldable pub render_ticks_html : List PulseTickType → Bool → List Tick
render_ticks_html history pulsing = ticks_of pulsing (history_or history)

-- `id.includes('B') || id.includes('b')`
abbrev offset_of : NodeHeartbeatState → Option ℕ
offset_of n =
    if is_online n.status
    then some (
        if is_leader n.state
        then 0
        else if includes (codes n.id) (codes "B") || includes (codes n.id) (codes "b")
        then 84
        else 121)
    else none

abbrev selects : Option String → NodeHeartbeatState → Bool
selects none n = false
selects (some s) n =
    if truthy? (some s)
    then str_eq s (normalize_node_key n.id) || str_eq s n.id || str_eq s n.display_name
    else false

abbrev live_of : Option String → String → List Tick → NodeHeartbeatState → Live
live_of selected spoken ticks n = record {
  online = is_online n.status;
  role = n.state;
  selected = selects selected n;
  spoken_name = spoken;
  ticks = ticks;
  offset = offset_of n;
  port = n.port;
}

unfoldable pub render_heartbeat_lane : Option String → NodeHeartbeatState → Lane
unfolding render_ticks_html
render_heartbeat_lane selected n = record {
  id = n.id;
  name = n.display_name;
  title_online = is_online n.status;
  live = live_of selected n.display_name (render_ticks_html n.history n.is_pulsing) n;
}

-- The loop over the ticks, for a track that has as many as the history; the last one alone may pulse.
abbrev pub set_classes : Bool → List PulseTickType → List Tick → List Tick
set_classes pulsing [] old = old
set_classes pulsing ts [] = []
set_classes pulsing (t ∷ []) (o ∷ old) = record o { kind = t; pulses = pulsing } ∷ old
set_classes pulsing (t ∷ u ∷ ts) (o ∷ old) =
    record o { kind = t; pulses = false } ∷ set_classes pulsing (u ∷ ts) old

unfoldable pub update_ticks : List PulseTickType → Bool → List Tick → List Tick
unfolding render_ticks_html
update_ticks history pulsing old =
    let target = history_or history in
    if length old == length target && ltb 0 (length old)
    then set_classes pulsing target old
    else render_ticks_html history pulsing

unfoldable pub update_lane : Option String → NodeHeartbeatState → Lane → Lane
unfolding update_ticks
update_lane selected n l = record l {
  live =
      live_of selected (or_text (some n.display_name) n.id)
        (update_ticks n.history n.is_pulsing l.live.ticks) n;
}

-- `getElementById` finds the first lane with the identity.
abbrev pub find_lane : String → List Lane → Option Lane
find_lane id [] = none
find_lane id (l ∷ ls) = let rest = find_lane id ls in if str_eq l.id id then some l else rest

abbrev pub set_lane : Option String → NodeHeartbeatState → List Lane → List Lane
set_lane selected n [] = []
set_lane selected n (l ∷ ls) =
    let rest = set_lane selected n ls in
    if str_eq l.id n.id then update_lane selected n l ∷ ls else l ∷ rest

-- The loop over the nodes; a node without a lane has all of them drawn anew.
abbrev pub update_each :
    Option String → List NodeHeartbeatState → List NodeHeartbeatState → List Lane → List Lane
update_each selected all [] lanes = lanes
update_each selected all (n ∷ ns) lanes =
    let next = update_each selected all ns (set_lane selected n lanes) in
    if is_some (find_lane n.id lanes) then next else map (render_heartbeat_lane selected) all

unfoldable pub update_heartbeat_rail_dom :
    Option String → List NodeHeartbeatState → List Lane → List Lane
unfolding update_lane render_heartbeat_lane
update_heartbeat_rail_dom selected nodes lanes = update_each selected nodes nodes lanes

-- What stands in for a list without nodes; `now` is the time, in thousandths of a second.
abbrev stand_in : ℕ → String → String → NodeState → ℕ → NodeHeartbeatState
stand_in now id port state latency = record {
  id = id;
  display_name = id;
  state = state;
  status = online;
  last_heartbeat = now;
  latency_tenths = latency;
  url = none;
  port = port;
  is_pulsing = false;
  history = replicate 20 ok;
  consecutive_missed = 0;
}

abbrev default_nodes : ℕ → List NodeHeartbeatState → List NodeHeartbeatState
default_nodes now [] =
    stand_in now "nodeA" ":8000" leader 0
    ∷ stand_in now "nodeB" ":8001" follower 84
    ∷ stand_in now "nodeC" ":8002" follower 121
    ∷ []
default_nodes now (n ∷ ns) = n ∷ ns

pub data RailPanel : Type 0 where
  connecting : RailPanel
  no_signals : RailPanel
  stream_offline : (message : String) → RailPanel
  lanes : List Lane → RailPanel

unfoldable pub render_heartbeat_rail :
    ℕ → List NodeHeartbeatState → ViewState → Option String → Option String → RailPanel
unfolding render_heartbeat_lane
render_heartbeat_rail now nodes loading message selected = connecting
render_heartbeat_rail now nodes empty message selected = no_signals
render_heartbeat_rail now nodes error message selected = stream_offline (
    or_text message "Heartbeat pulse stream disconnected: Coordinator at port 8000 is unreachable.")
render_heartbeat_rail now nodes normal message selected =
    lanes (map (render_heartbeat_lane selected) (default_nodes now nodes))

-- Only the lanes and the skeleton have the container that the update looks for, and a skeleton no lane of a
-- node in it.
unfoldable pub update_rail_panel : Option String → List NodeHeartbeatState → RailPanel → RailPanel
unfolding update_heartbeat_rail_dom
update_rail_panel selected nodes (lanes ls) = lanes (update_heartbeat_rail_dom selected nodes ls)
update_rail_panel selected [] connecting = connecting
update_rail_panel selected (n ∷ ns) connecting =
    lanes (map (render_heartbeat_lane selected) (n ∷ ns))
update_rail_panel selected nodes rail = rail
