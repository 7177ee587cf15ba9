-- ===== src/Heartbeat/State.antt =====
-- The data of frontend/src/services/heartbeatService.ts: the service, its settings and what it broadcasts.
use distributed_file_storage.Prelude.{ℕ, String, Bool, Option, List}
use distributed_file_storage.Backoff.{Factor}
use distributed_file_storage.Runtime.{Runtime}
use distributed_file_storage.Heartbeat.Node.{NodeHeartbeatState}

pub record HeartbeatRailResult : Type 0 where
  pub nodes : List NodeHeartbeatState
  pub reachable : Bool
  pub timestamp : ℕ
  pub error : Option String
  pub consecutive_failures : ℕ
  pub current_interval_ms : ℕ

pub record HeartbeatPollingConfig : Type 0 where
  pub interval_ms : Option ℕ
  pub base_interval_ms : Option ℕ
  pub max_interval_ms : Option ℕ
  pub backoff_factor : Option Factor
  pub max_history_ticks : Option ℕ
  pub request_timeout_ms : Option ℕ

abbrev pub Nodes : Type 0
Nodes = List (String × NodeHeartbeatState)

pub record HeartbeatService : Type 0 where
  pub node_map : Nodes
  pub listeners : List ℕ
  pub timer_id : Option ℕ
  pub abort_controller : Option ℕ
  pub is_polling : Bool
  pub base_interval_ms : ℕ
  pub max_interval_ms : ℕ
  pub backoff_factor : Factor
  pub request_timeout_ms : ℕ
  pub max_history_ticks : ℕ
  pub consecutive_failures : ℕ
  pub current_interval_ms : ℕ
  pub last_result : HeartbeatRailResult

abbrev pub HeartbeatRuntime : Type 0
HeartbeatRuntime = Runtime HeartbeatRailResult
