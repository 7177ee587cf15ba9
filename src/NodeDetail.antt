-- ===== src/NodeDetail.antt =====
-- The panel of frontend/src/components/NodeDetailPanel.ts: what it shows for its props, and its update in
-- place. A value that the panel formats is kept as it is, for the child Texts; latencies are in tenths of a
-- millisecond. An update of a panel that is to be closed keeps its content in the page, out of sight; here it is
-- `closed` alone, as frontend/src/main.ts, which closes and opens a panel only by drawing it, never does that.
pub mod Laws
pub mod Texts
use distributed_file_storage.Prelude.{
  ℕ, String, str_eq, Bool, true, false, not, ◌&&◌, ◌||◌, Option, none, some, List, [], ◌∷◌, ◌++◌,
  or_else, or_text, truthy, if◌then◌else◌, filter, codes, is_space, to_lower_case, is_prefix,
  includes, template, ◌==◌,
}
use distributed_file_storage.Api.{
  NodeDetailResponse, NodeState, NodeStatus, leader, follower, online, is_leader, is_online,
}
use Prim.Native.String

-- `ViewState` of frontend/src/types/components.ts
pub data ViewState : Type 0 where
  normal loading empty error : ViewState

pub record NodeDetailProps : Type 0 where
  pub node_id : Option String
  pub node_detail : Option NodeDetailResponse
  pub latency : Option ℕ
  pub is_open : Bool
  pub state : ViewState
  pub error_message : Option String

abbrev pub same_codes : List ℕ → List ℕ → Bool
same_codes [] [] = true
same_codes (a ∷ s) (b ∷ t) = a == b && same_codes s t
same_codes _ _ = false

abbrev pub lower : String → List ℕ
lower s = to_lower_case (codes s)

abbrev no_spaces : List ℕ → List ℕ
no_spaces = filter (λ c. not (is_space c))

-- What follows the word, where the text begins with it.
abbrev after_word : List ℕ → List ℕ → List ℕ → List ℕ
after_word whole [] s = s
after_word whole (c ∷ word) [] = whole
after_word whole (c ∷ word) (d ∷ s) = if c == d then after_word whole word s else whole

abbrev drop_spaces : List ℕ → List ℕ
drop_spaces [] = []
drop_spaces (c ∷ s) = let rest = drop_spaces s in if is_space c then rest else c ∷ s

-- `nodeId.toLowerCase().replace(/\s+/g, '').replace(/^node/i, '')`
unfoldable pub clean_id : String → List ℕ
clean_id id = let s = no_spaces (lower id) in after_word s (codes "node") s

-- The lower case of ``nodeId.startsWith('node') ? nodeId : `node${nodeId.replace(/^Node\s*/i, '')}` ``
unfoldable pub canonical_id : String → List ℕ
canonical_id id =
    let s = lower id in
    let kept = after_word [] (codes "node") s in
    let rest = if is_prefix (codes "node") s then drop_spaces kept else s in
    if is_prefix (codes "node") (codes id) then s else codes "node" ++ rest

pub record Metadata : Type 0 where
  pub port : String
  pub url : String
  pub term : ℕ
  pub commit_index : ℕ
  pub peers : List String

abbrev url_of : Option NodeDetailResponse → Option String
url_of none = none
url_of (some d) = d.url

abbrev term_of : Option NodeDetailResponse → Option ℕ
term_of none = none
term_of (some d) = d.term

abbrev commit_index_of : Option NodeDetailResponse → Option ℕ
commit_index_of none = none
commit_index_of (some d) = d.commit_index

abbrev peers_of : Option NodeDetailResponse → Option (List String)
peers_of none = none
peers_of (some d) = d.peers

-- The later of the two tests decides.
unfoldable pub default_port : String → String
unfolding clean_id
default_port id =
    if same_codes (clean_id id) (codes "c") || includes (codes id) (codes "8002")
    then ":8002"
    else if same_codes (clean_id id) (codes "b") || includes (codes id) (codes "8001")
    then ":8001"
    else ":8000"

-- `new URL(rawUrl).port` in a `try`
abbrev port_or : Option String → String → String
port_or none fallback = fallback
port_or (some port) fallback = if truthy port then template (":" ∷ port ∷ []) else fallback

-- `nodeDetail?.state || (… ? 'LEADER' : 'FOLLOWER')`
unfoldable pub state_of : Option NodeDetailResponse → String → NodeState
state_of none id = if includes (lower id) (codes "a") then leader else follower
state_of (some d) id = d.state

unfoldable pub status_of : Option NodeDetailResponse → NodeStatus
status_of none = online
status_of (some d) = d.status

abbrev pub last_heartbeat_of : Option NodeDetailResponse → ℕ → ℕ
last_heartbeat_of none now = now
last_heartbeat_of (some d) now = d.last_heartbeat

-- The latency that is shown, with `none` for the dash of a node that is offline.
unfoldable pub shown_latency : NodeState → NodeStatus → Option ℕ → String → Option ℕ
shown_latency state status latency id =
    if is_online status
    then some (
        if is_leader state
        then 0
        else or_else latency (if includes (lower id) (codes "b") then 84 else 121))
    else none

-- The parts of the open panel. `badge_online` and `latency_leader` choose style classes.
pub record Telemetry : Type 0 where
  pub role : NodeState
  pub status : NodeStatus
  pub badge_online : Bool
  pub latency : Option ℕ
  pub latency_leader : Bool
  pub last_heartbeat : ℕ
  pub term : ℕ
  pub commit_index : ℕ
  pub url : String
  pub port : String
  pub peers : List String

pub data Panel : Type 0 where
  closed : Panel
  skeleton : (node_id : String) → Panel
  failed : (node_id message : String) → Panel
  telemetry : (node_id : String) → Telemetry → Panel

-- `url_port` is `new URL(url).port` of the browser, `none` where the constructor throws.
module _ (url_port : String → Option String) where
  unfoldable pub resolve_node_metadata : Option NodeDetailResponse → String → Metadata
  unfolding default_port canonical_id
  resolve_node_metadata detail id =
      let url = or_text (url_of detail) (template ("http://127.0.0.1" ∷ default_port id ∷ [])) in
      record {
        port = port_or (url_port url) (default_port id);
        url = url;
        term = or_else (term_of detail) 4;
        commit_index = or_else (commit_index_of detail) 1042;
        peers = or_else (peers_of detail) (
            filter (λ n. not (same_codes (lower n) (canonical_id id)))
              ("nodeA" ∷ "nodeB" ∷ "nodeC" ∷ []));
      }

  -- The normal state of `renderNodeDetailPanel`.
  unfoldable pub render_telemetry : ℕ → String → Option NodeDetailResponse → Option ℕ → Telemetry
  unfolding state_of status_of shown_latency
  render_telemetry now id detail latency =
      let m = resolve_node_metadata detail id in
      let role = state_of detail id in
      let status = status_of detail in
      record {
        role = role;
        status = status;
        badge_online = is_online status;
        latency = shown_latency role status latency id;
        latency_leader = is_leader role;
        last_heartbeat = last_heartbeat_of detail now;
        term = m.term;
        commit_index = m.commit_index;
        url = m.url;
        port = m.port;
        peers = m.peers;
      }

  abbrev error_text : String → Option String → String
  error_text id message = or_text message (
      template (
        "Failed to fetch telemetry for node '" ∷ id
        ∷ "'. Coordinator returned an error or node is unreachable." ∷ []))

  abbrev pub open_panel : ℕ → String → ViewState → NodeDetailProps → Panel
  open_panel now id loading p = skeleton id
  open_panel now id error p = failed id (error_text id p.error_message)
  open_panel now id _ p = telemetry id (render_telemetry now id p.node_detail p.latency)

  abbrev pub panel_of : ℕ → Option String → NodeDetailProps → Panel
  panel_of now none p = closed
  panel_of now (some id) p = if p.is_open && truthy id then open_panel now id p.state p else closed

  unfoldable pub render_node_detail_panel : ℕ → NodeDetailProps → Panel
  unfolding render_telemetry
  render_node_detail_panel now p = panel_of now p.node_id p

  -- What `updateNodeDetailDOM` writes into a panel that shows the node.
  unfoldable pub update_telemetry :
      ℕ → String → Option NodeDetailResponse → Option ℕ → Telemetry → Telemetry
  unfolding state_of status_of shown_latency
  update_telemetry now id detail latency t =
      let m = resolve_node_metadata detail id in
      let role = state_of detail id in
      let status = status_of detail in
      record t {
        status = status;
        latency = shown_latency role status latency id;
        latency_leader = is_leader role;
        last_heartbeat = last_heartbeat_of detail now;
        term = m.term;
        commit_index = m.commit_index;
      }

  -- A panel that shows no node, or another one, is rendered anew: only the telemetry has `data-node`.
  abbrev pub update_open : ℕ → String → NodeDetailProps → Panel → Panel
  update_open now id p (telemetry shown t) =
      if str_eq shown id
      then telemetry shown (update_telemetry now id p.node_detail p.latency t)
      else render_node_detail_panel now p
  update_open now id p _ = render_node_detail_panel now p

  -- A closed panel loses its class and keeps its content, which is then out of sight.
  abbrev pub update_of : ℕ → Option String → NodeDetailProps → Panel → Panel
  update_of now none p panel = closed
  update_of now (some id) p panel =
      if p.is_open && truthy id then update_open now id p panel else closed

  unfoldable pub update_node_detail_dom : ℕ → NodeDetailProps → Panel → Panel
  unfolding render_node_detail_panel update_telemetry
  update_node_detail_dom now p panel = update_of now p.node_id p panel
