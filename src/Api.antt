-- ===== src/Api.antt =====
-- The API contract of frontend/src/types/api.ts and the error values that a request throws.
-- An optional field, and a field whose absence the code provides for, is an `Option`. Times in
-- seconds and fractional milliseconds are whole numbers of the finest unit that the code writes.
use distributed_file_storage.Prelude.{ℕ, String, Option, some, List, Bool}

pub data ClusterState : Type 0 where
  healthy operational no_majority : ClusterState

pub data NodeState : Type 0 where
  leader follower candidate : NodeState

pub data NodeStatus : Type 0 where
  online offline : NodeStatus

pub data FileStatus : Type 0 where
  replicated syncing degraded corrupted : FileStatus

pub record HealthResponse : Type 0 where
  pub status : String
  pub message : String
  pub node_id : String
  pub timestamp : ℕ

pub record ClusterStatusResponse : Type 0 where
  pub cluster_state : ClusterState
  pub leader_id : Option String
  pub term : ℕ
  pub commit_index : ℕ
  pub active_nodes : ℕ
  pub total_nodes : ℕ
  pub timestamp : ℕ

-- `last_heartbeat` is in milliseconds.
pub record NodeInfo : Type 0 where
  pub id : String
  pub state : NodeState
  pub last_heartbeat : ℕ
  pub status : NodeStatus
  pub url : Option String

pub record NodesResponse : Type 0 where
  pub nodes : Option (List NodeInfo)

pub record NodeDetailResponse : Type 0 where
  pub node : NodeInfo
  pub open node use *
  pub term : Option ℕ
  pub commit_index : Option ℕ
  pub peers : Option (List String)

pub record FileInfo : Type 0 where
  pub file_id : String
  pub name : String
  pub size : ℕ
  pub replicas : List String
  pub status : FileStatus
  pub checksum : Option String
  pub modified_at : Option ℕ

pub record FilesResponse : Type 0 where
  pub files : Option (List FileInfo)
  pub total_files : Option ℕ
  pub total_size_bytes : Option ℕ

pub record UploadFileResponse : Type 0 where
  pub message : String
  pub filename : String

pub record ApiErrorResponse : Type 0 where
  pub detail : Option String
  pub error : Option String
  pub message : Option String
  pub status_code : Option ℕ

pub record DeleteFileResponse : Type 0 where
  pub message : String
  pub filename : String
  pub file_id : String

-- `class ApiClientError extends Error` of frontend/src/api/client.ts
pub record ApiClientError : Type 0 where
  pub message : String
  pub status : ℕ
  pub url : String
  pub error_data : Option ApiErrorResponse

-- What a `catch` clause meets: the client's error, another `Error` by its name and message, or a
-- thrown value that is no `Error`.
pub data Thrown : Type 0 where
  api : ApiClientError → Thrown
  error : (name message : String) → Thrown
  other : Thrown

-- `err instanceof Error ? err.message : fallback`
abbrev pub message_or : String → Thrown → String
message_or fallback (api e) = e.message
message_or fallback (error name message) = message
message_or fallback other = fallback

-- How an awaited call ends.
pub data Outcome (A : Type 0) : Type 0 where
  resolved : A → Outcome A
  rejected : Thrown → Outcome A

abbrev pub is_leader : NodeState → Bool
is_leader leader = Bool.true
is_leader _ = Bool.false

abbrev pub is_online : NodeStatus → Bool
is_online online = Bool.true
is_online offline = Bool.false

abbrev pub is_no_majority : Option ClusterState → Bool
is_no_majority (some no_majority) = Bool.true
is_no_majority (some healthy) = Bool.false
is_no_majority _ = Bool.false

-- What comes back to the `await` of a fetch: how it ended, the rounded milliseconds since it began,
-- and `Date.now()`.
pub record Reply (A : Type 0) : Type 0 where
  pub outcome : Outcome A
  pub latency : ℕ
  pub now : ℕ

-- The argument of `startPolling`, `config | number`.
pub data PollingArgument (C : Type 0) : Type 0 where
  number : ℕ → PollingArgument C
  config : C → PollingArgument C
