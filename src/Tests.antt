-- ===== src/Tests.antt =====
-- Runs of the client's code at concrete inputs. This module holds what the runs of the children share: a
-- runtime with nothing set, errors, and replies of the backend.
pub mod Backoffs
pub mod Polls
pub mod Hearts
pub mod Ledgers
pub mod Requests
pub mod Routes
pub mod Drawers
pub mod Panels
pub mod Headers
pub mod Applications
pub mod Formatters
pub mod Lifecycles
use distributed_file_storage.Prelude.{
  ℕ, String, Bool, true, false, Option, none, some, List, [], ◌∷◌, ◌==◌,
}
use distributed_file_storage.Api.{
  Thrown, error, Outcome, resolved, rejected, Reply, HealthResponse, ClusterStatusResponse, healthy,
  FilesResponse, FileInfo, replicated, NodeInfo, NodesResponse, follower, online,
}
use distributed_file_storage.Runtime.{Runtime}

-- The listener 2 throws on every value.
abbrev pub idle : {R : Type 0} → Runtime R
idle = record {
  next_id = 1;
  timers = [];
  one_shots = [];
  aborted = [];
  delivered = [];
  console_errors = [];
  throws = λ l r. l == 2;
}

abbrev pub offline_error : Thrown
offline_error = error "TypeError" "Failed to fetch"

abbrev pub failure : {A : Type 0} → Reply A
failure = record { outcome = rejected offline_error; latency = 7; now = 1000 }

abbrev pub success : {A : Type 0} → A → Reply A
success a = record { outcome = resolved a; latency = 12; now = 2000 }

abbrev pub healthy_response : HealthResponse
healthy_response = record { status = "ok"; message = "alive"; node_id = "nodeA"; timestamp = 1 }

abbrev pub cluster_response : ClusterStatusResponse
cluster_response = record {
  cluster_state = healthy;
  leader_id = some "nodeA";
  term = 3;
  commit_index = 8;
  active_nodes = 3;
  total_nodes = 3;
  timestamp = 1;
}

abbrev pub report : FileInfo
report = record {
  file_id = "f1";
  name = "Report.pdf";
  size = 40;
  replicas = "nodeA" ∷ [];
  status = replicated;
  checksum = none;
  modified_at = none;
}

abbrev pub notes : FileInfo
notes = record report { file_id = "f2"; name = "notes.txt"; size = 2 }

abbrev pub two_files : FilesResponse
two_files = record {
  files = some (report ∷ notes ∷ []);
  total_files = none;
  total_size_bytes = none;
}

abbrev pub node_b : NodeInfo
node_b = record {
  id = "nodeB";
  state = follower;
  last_heartbeat = 1500;
  status = online;
  url = none;
}

abbrev pub one_node : NodesResponse
one_node = record { nodes = some (node_b ∷ []) }

-- A browser without addresses to parse.
abbrev pub no_port : String → Option String
no_port url = none
