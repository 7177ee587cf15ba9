-- ===== src/Heartbeat.antt =====
-- `HeartbeatService` of frontend/src/services/heartbeatService.ts: the telemetry of the nodes. The map
-- of nodes is an association list in the order of insertion. The loop over a response also writes
-- `consecutiveMissed` into the node object that it replaces: `with_writes` does so for the objects of the same
-- response, and those of earlier results, which the service no longer holds, are left as they were.
mod State
pub mod Node
pub mod NodeMap
pub mod Poll
pub mod Polls
pub mod Window
pub mod Pulse
pub use State.*
use distributed_file_storage.Prelude.{
  ℕ, suc, String, str_eq, Bool, true, false, Option, none, some, List, [], ◌∷◌, ◌++◌, or_else,
  if◌then◌else◌, replicate, map, length,
}
use distributed_file_storage.Api.{
  NodeInfo, NodeState, NodesResponse, leader, follower, online, message_or, Outcome, resolved,
  rejected, Reply, PollingArgument, number, config,
}
use distributed_file_storage.Backoff.{Factor, default_factor, backoff_interval}
use distributed_file_storage.Runtime.{Runtime, clear_timeout?, new_controller, abort?}
use distributed_file_storage.Runtime.Listeners.{add, delete, call, notify_listeners}
use Node.{NodeHeartbeatState, ok, normalize_node_key, extract_port, fresh, beat, lose}
use NodeMap.{get, put, values}

-- `MAX_HISTORY_TICKS`
abbrev pub default_history_ticks : ℕ
default_history_ticks = 20

abbrev default_node : String → NodeState → String → ℕ → ℕ → NodeHeartbeatState
default_node id state port latency now = record {
  id = id;
  display_name = id;
  state = state;
  status = online;
  last_heartbeat = now;
  latency_tenths = latency;
  url = none;
  port = port;
  is_pulsing = false;
  history = replicate default_history_ticks ok;
  consecutive_missed = 0;
}

-- `initializeDefaultNodes` on the map that it is called with.
unfoldable pub initialize_default_nodes : ℕ → Nodes → Nodes
initialize_default_nodes now m = put "nodeC" (default_node "nodeC" follower ":8002" 121 now) (
    put "nodeB" (default_node "nodeB" follower ":8001" 84 now)
      (put "nodeA" (default_node "nodeA" leader ":8000" 0 now) m))

abbrev pub unpolled : ℕ → ℕ → Nodes → HeartbeatRailResult
unpolled now interval m = record {
  nodes = values m;
  reachable = false;
  timestamp = now;
  error = none;
  consecutive_failures = 0;
  current_interval_ms = interval;
}

unfoldable pub new : ℕ → HeartbeatService
unfolding initialize_default_nodes
new now = record {
  node_map = initialize_default_nodes now [];
  listeners = [];
  timer_id = none;
  abort_controller = none;
  is_polling = false;
  base_interval_ms = 500;
  max_interval_ms = 10000;
  backoff_factor = default_factor;
  request_timeout_ms = 2000;
  max_history_ticks = default_history_ticks;
  consecutive_failures = 0;
  current_interval_ms = 500;
  last_result = unpolled now 500 (initialize_default_nodes now []);
}

unfoldable pub calculate_backoff_interval : HeartbeatService → ℕ → ℕ
calculate_backoff_interval s failures =
    backoff_interval s.base_interval_ms s.max_interval_ms s.backoff_factor failures

-- `pollHeartbeats` up to its `await`.
unfoldable pub begin_poll :
    HeartbeatService → HeartbeatRuntime → HeartbeatService × HeartbeatRuntime
begin_poll s rt =
    let (id, rt') = new_controller rt in (record s { abort_controller = some id }, rt')

-- `a.length > 0 ? a : b`
abbrev or_list {ℓ} : {A : Type ℓ} → List A → List A → List A
or_list [] ys = ys
or_list (x ∷ xs) ys = x ∷ xs

-- `for (const [key, node] of this.nodeMap.entries())` of the `catch` branch
unfoldable pub lose_all : ℕ → Nodes → Nodes
lose_all most [] = []
lose_all most ((k, n) ∷ m) = (k, lose most n) ∷ lose_all most m

-- The node, with the count of the next one that replaces it in the map.
abbrev pub replaced_by : NodeHeartbeatState → List NodeHeartbeatState → NodeHeartbeatState
replaced_by n [] = n
replaced_by n (m ∷ ms) =
    let rest = replaced_by n ms in
    if str_eq m.id n.id then record n { consecutive_missed = m.consecutive_missed } else rest

-- `updatedNodes` after the writes to `existing.consecutiveMissed`.
unfoldable pub with_writes : List NodeHeartbeatState → List NodeHeartbeatState
with_writes [] = []
with_writes (n ∷ ns) = replaced_by n ns ∷ with_writes ns

module _ (url_port : String → Option String) where
  -- One round of the loop over the entries: the node's new state, and the map with it.
  unfoldable pub update_node : ℕ → ℕ → ℕ → NodeInfo → Nodes → NodeHeartbeatState × Nodes
  update_node most latency now raw m =
      let key = normalize_node_key raw.id in
      let existing = or_else (get key m) (fresh url_port most key raw) in
      let node = beat url_port most latency now raw key existing in (node, put key node m)

  -- The loop, with the nodes that it pushes, each as it is then, and the map at its end.
  unfoldable pub update_nodes : ℕ → ℕ → ℕ → List NodeInfo → Nodes → List NodeHeartbeatState × Nodes
  unfolding update_node
  update_nodes most latency now [] m = ([], m)
  update_nodes most latency now (raw ∷ raws) m =
      let (node, m') = update_node most latency now raw m in
      let (nodes, m'') = update_nodes most latency now raws m' in (node ∷ nodes, m'')

  -- `pollHeartbeats` after the `await`: the `try` branch on a response, the `catch` branch on an error,
  -- and `finally`.
  unfoldable pub settle : Outcome NodesResponse → ℕ → ℕ → HeartbeatService → HeartbeatService
  unfolding with_writes
  settle (resolved response) latency now s =
      let (updated, m) =
        update_nodes s.max_history_ticks latency now (or_else response.nodes []) s.node_map in
      record s {
        node_map = m;
        abort_controller = none;
        consecutive_failures = 0;
        current_interval_ms = s.base_interval_ms;
        last_result = record {
          nodes = or_list (with_writes updated) (values m);
          reachable = true;
          timestamp = now;
          error = none;
          consecutive_failures = 0;
          current_interval_ms = s.base_interval_ms;
        };
      }
  settle (rejected err) latency now s =
      let failures = suc s.consecutive_failures in
      let interval = calculate_backoff_interval s failures in
      let m = lose_all s.max_history_ticks s.node_map in
      record s {
        node_map = m;
        abort_controller = none;
        consecutive_failures = failures;
        current_interval_ms = interval;
        last_result = record {
          nodes = values m;
          reachable = false;
          timestamp = now;
          error = some (message_or "Failed to query nodes" err);
          consecutive_failures = failures;
          current_interval_ms = interval;
        };
      }

  -- `pollHeartbeats` from the `await` to its end.
  unfoldable pub poll_heartbeats :
      Reply NodesResponse
      → HeartbeatService
      → HeartbeatRuntime
      → HeartbeatService × HeartbeatRuntime
  poll_heartbeats reply s rt =
      let s' = settle reply.outcome reply.latency reply.now s in
      (s', notify_listeners s'.listeners s'.last_result rt)

-- `retry` before it calls `pollHeartbeats`.
unfoldable pub retry : HeartbeatService → HeartbeatService
retry s = record s { consecutive_failures = 0; current_interval_ms = s.base_interval_ms }

-- The settings of `startPolling`.
unfoldable pub configure :
    PollingArgument HeartbeatPollingConfig → HeartbeatService → HeartbeatService
configure (number n) s = record s { base_interval_ms = n; current_interval_ms = n }
configure (config c) s =
    let base = or_else c.base_interval_ms (or_else c.interval_ms 500) in
    record s {
      base_interval_ms = base;
      max_interval_ms = or_else c.max_interval_ms 10000;
      backoff_factor = or_else c.backoff_factor default_factor;
      max_history_ticks = or_else c.max_history_ticks default_history_ticks;
      request_timeout_ms = or_else c.request_timeout_ms 2000;
      current_interval_ms = base;
    }

unfoldable pub stop_polling :
    HeartbeatService → HeartbeatRuntime → HeartbeatService × HeartbeatRuntime
stop_polling s rt = (
  record s { is_polling = false; timer_id = none; abort_controller = none },
  abort? s.abort_controller (clear_timeout? s.timer_id rt),
)

-- The listener is called at once; the flag says whether it threw, which ends the call.
unfoldable pub subscribe :
    ℕ → HeartbeatService → HeartbeatRuntime → HeartbeatService × HeartbeatRuntime × Bool
subscribe listener s rt =
    let (rt', thrown) = call listener s.last_result rt in
    (record s { listeners = add listener s.listeners }, rt', thrown)

unfoldable pub unsubscribe : ℕ → HeartbeatService → HeartbeatService
unsubscribe listener s = record s { listeners = delete listener s.listeners }

unfoldable pub reset : ℕ → HeartbeatService → HeartbeatRuntime → HeartbeatService × HeartbeatRuntime
unfolding stop_polling
reset now s rt =
    let (s', rt') = stop_polling s rt in
    let m = initialize_default_nodes now [] in
    (
      record s' {
        node_map = m;
        consecutive_failures = 0;
        current_interval_ms = s'.base_interval_ms;
        last_result = unpolled now s'.base_interval_ms m;
        listeners = [];
      },
      rt',
    )

-- The delay before the next execution of the loop.
unfoldable pub next_delay : HeartbeatService → ℕ
next_delay s =
    if s.last_result.reachable then s.base_interval_ms else s.last_result.current_interval_ms

unfoldable pub get_last_result : HeartbeatService → HeartbeatRailResult
get_last_result s = s.last_result

unfoldable pub is_running : HeartbeatService → Bool
is_running s = s.is_polling
