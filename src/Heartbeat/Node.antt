-- ===== src/Heartbeat/Node.antt =====
-- The nodes of frontend/src/services/heartbeatService.ts: their keys and ports, the window of pulse
-- ticks, and how one entry of a `/nodes` response moves a node. Times are in milliseconds and
-- latencies in tenths of a millisecond, so that 8.4 ms is 84.
use Prim.Native.Char.{code}
use distributed_file_storage.Prelude.{
  ℕ, suc, ◌+◌, ◌*◌, String, str_eq, Bool, true, false, ◌&&◌, ◌||◌, Option, none, some, List, [],
  ◌∷◌, ◌++◌, ltb, ◌==◌, if◌then◌else◌, replicate, length, codes, is_space, to_lower, to_lower_case,
  includes, truthy, template, ◌≡◌, refl,
}
use distributed_file_storage.Api.{NodeInfo, NodeState, NodeStatus, offline, is_leader, is_online}

pub data PulseTickType : Type 0 where
  ok warn missed : PulseTickType

pub record NodeHeartbeatState : Type 0 where
  pub id : String
  pub display_name : String
  pub state : NodeState
  pub status : NodeStatus
  pub last_heartbeat : ℕ
  pub latency_tenths : ℕ
  pub url : Option String
  pub port : String
  pub is_pulsing : Bool
  pub history : List PulseTickType
  pub consecutive_missed : ℕ

-- `id.replace(/\s+/g, '')`
strip_spaces : String → String
strip_spaces String.[] = ""
strip_spaces (String.◌∷◌ c s) =
    let rest = strip_spaces s in if is_space (code c) then rest else String.◌∷◌ c rest

-- `s.replace(/^node/i, 'node')`
abbrev lead_node : String → String
lead_node (String.◌∷◌ a (String.◌∷◌ b (String.◌∷◌ c (String.◌∷◌ d s)))) =
    if to_lower (code a) == b'n'
      && to_lower (code b) == b'o'
      && to_lower (code c) == b'd'
      && to_lower (code d) == b'e'
    then template ("node" ∷ s ∷ [])
    else String.◌∷◌ a (String.◌∷◌ b (String.◌∷◌ c (String.◌∷◌ d s)))
lead_node s = s

unfoldable pub normalize_node_key : String → String
unfolding strip_spaces to_lower template
normalize_node_key id = lead_node (strip_spaces id)

abbrev mentions : String → String → String → Bool
mentions id number letter =
    includes (codes id) (codes number) || includes (to_lower_case (codes id)) (codes letter)

-- The ladder of `extractPort` on the identity alone.
fallback_port : String → String
fallback_port id =
    if mentions id "8000" "a"
    then ":8000"
    else if mentions id "8001" "b"
    then ":8001"
    else if mentions id "8002" "c"
    then ":8002"
    else ":8000"

-- `new URL(url).port` of the browser: `none` where the constructor throws, an empty text for the
-- default port of the scheme.
module _ (url_port : String → Option String) where
  abbrev parsed_port : Option String → Option String
  parsed_port none = none
  parsed_port (some url) = if truthy url then url_port url else none

  abbrev port_or : Option String → String → String
  port_or none id = fallback_port id
  port_or (some port) id = if truthy port then template (":" ∷ port ∷ []) else fallback_port id

  unfoldable pub extract_port : Option String → String → String
  unfolding fallback_port
  extract_port url id = port_or (parsed_port url) id

-- `history.push(tick)`, and `shift()` if that is longer than `most`.
abbrev shift {ℓ} : {A : Type ℓ} → List A → List A
shift [] = []
shift (x ∷ xs) = xs

unfoldable pub slide : ℕ → List PulseTickType → PulseTickType → List PulseTickType
slide most history tick =
    let next = history ++ tick ∷ [] in if ltb most (length next) then shift next else next

-- The tick that an entry earns: `ok` for a node that is online and whose heartbeat has advanced or is
-- less than five seconds old.
unfoldable pub tick_of : NodeInfo → ℕ → ℕ → PulseTickType
tick_of raw previous now =
    if is_online raw.status
      && (ltb previous raw.last_heartbeat || ltb now (raw.last_heartbeat + 5000))
    then ok
    else if is_online raw.status
    then warn
    else missed

abbrev is_ok : PulseTickType → Bool
is_ok ok = true
is_ok _ = false

abbrev missed_after : PulseTickType → ℕ → ℕ
missed_after ok n = 0
missed_after _ n = suc n

-- `isOnline ? (raw.state === 'LEADER' ? 0.0 : (latencyMs || (key === 'nodeB' ? 8.4 : 12.1))) : 0`
unfoldable pub shown_latency : NodeInfo → String → ℕ → ℕ
shown_latency raw key latency =
    if is_online raw.status
    then (if is_leader raw.state
        then 0
        else if latency == 0
        then (if str_eq key "nodeB" then 84 else 121)
        else latency * 10)
    else 0

module _ (url_port : String → Option String) where
  -- The object that stands in for a node that is not in the map.
  abbrev pub fresh : ℕ → String → NodeInfo → NodeHeartbeatState
  fresh most key raw = record {
    id = key;
    display_name = raw.id;
    state = raw.state;
    status = raw.status;
    last_heartbeat = raw.last_heartbeat;
    latency_tenths = 0;
    url = none;
    port = extract_port url_port raw.url raw.id;
    is_pulsing = false;
    history = replicate most ok;
    consecutive_missed = 0;
  }

  -- The new state of a node, from its state before and its entry.
  unfoldable pub beat : ℕ → ℕ → ℕ → NodeInfo → String → NodeHeartbeatState → NodeHeartbeatState
  beat most latency now raw key existing =
      let tick = tick_of raw existing.last_heartbeat now in
      record {
        id = key;
        display_name = raw.id;
        state = raw.state;
        status = raw.status;
        last_heartbeat = raw.last_heartbeat;
        latency_tenths = shown_latency raw key latency;
        url = raw.url;
        port = extract_port url_port raw.url raw.id;
        is_pulsing = is_ok tick;
        history = slide most existing.history tick;
        consecutive_missed = missed_after tick existing.consecutive_missed;
      }

-- The new state of a node when the backend cannot be reached.
unfoldable pub lose : ℕ → NodeHeartbeatState → NodeHeartbeatState
lose most node = record node {
  status = offline;
  is_pulsing = false;
  history = slide most node.history missed;
  consecutive_missed = suc node.consecutive_missed;
}

key_tests :
    (normalize_node_key "NODE a" ≡ "nodea")
    × (normalize_node_key " my node" ≡ "mynode")
    × (fallback_port "nodeB" ≡ ":8001")
    × (fallback_port "x8002" ≡ ":8002")
unfolding normalize_node_key fallback_port to_lower
key_tests = (refl, refl, refl, refl)
