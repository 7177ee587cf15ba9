-- ===== src/Files/State.antt =====
-- The data of frontend/src/services/fileService.ts: the service, its settings, what it broadcasts, and the
-- states of a transfer of frontend/src/types/components.ts.
use distributed_file_storage.Prelude.{ℕ, String, Bool, Option, List}
use distributed_file_storage.Api.{FileInfo}
use distributed_file_storage.Backoff.{Factor}
use distributed_file_storage.Runtime.{Runtime}

-- A browser `File`; a bare `Blob` has no name.
pub record File : Type 0 where
  pub name : String
  pub size : ℕ

pub record UploadState : Type 0 where
  pub is_uploading : Bool
  pub filename : String
  pub percent : ℕ
  pub loaded_bytes : ℕ
  pub total_bytes : ℕ
  pub error : Option String
  pub last_failed_file : Option File

pub record DownloadState : Type 0 where
  pub is_downloading : Bool
  pub file_id : String
  pub filename : Option String
  pub error : Option String

pub record DeleteState : Type 0 where
  pub confirming_file_id : Option String
  pub is_deleting : Bool
  pub file_id : Option String
  pub error : Option String

pub record FileServiceResult : Type 0 where
  pub files : List FileInfo
  pub total_files : ℕ
  pub total_size_bytes : ℕ
  pub reachable : Bool
  pub timestamp : ℕ
  pub error : Option String
  pub search_query : String
  pub upload_state : Option UploadState
  pub download_state : Option DownloadState
  pub delete_state : Option DeleteState
  pub consecutive_failures : ℕ
  pub current_interval_ms : ℕ

pub record FilePollingConfig : Type 0 where
  pub interval_ms : Option ℕ
  pub base_interval_ms : Option ℕ
  pub max_interval_ms : Option ℕ
  pub backoff_factor : Option Factor
  pub request_timeout_ms : Option ℕ

pub record FileService : Type 0 where
  pub files : List FileInfo
  pub total_files : ℕ
  pub total_size_bytes : ℕ
  pub reachable : Bool
  pub last_error : Option String
  pub last_timestamp : ℕ
  pub search_query : String
  pub upload_state : Option UploadState
  pub download_state : Option DownloadState
  pub delete_state : Option DeleteState
  pub consecutive_failures : ℕ
  pub current_interval_ms : ℕ
  pub listeners : List ℕ
  pub timer_id : Option ℕ
  pub abort_controller : Option ℕ
  pub is_polling : Bool
  pub base_interval_ms : ℕ
  pub max_interval_ms : ℕ
  pub backoff_factor : Factor
  pub request_timeout_ms : ℕ

abbrev pub FileRuntime : Type 0
FileRuntime = Runtime FileServiceResult
