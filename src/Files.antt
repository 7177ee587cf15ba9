-- ===== src/Files.antt =====
-- `FileService` of frontend/src/services/fileService.ts: the ledger of the replicated files, its search
-- and its polling. Uploads, downloads and deletions are in the children. A method is split at each
-- `await`; what it keeps in local variables across one is an argument of the later part.
mod State
pub mod Search
pub mod Upload
pub mod Download
pub mod Deletion
pub mod Poll
pub mod Messages
pub mod Calls
pub mod Pace
pub mod UploadLaws
pub mod Failures
pub use State.*
use distributed_file_storage.Prelude.{
  ℕ, suc, ◌+◌, String, Bool, true, false, Option, none, some, List, [], ◌∷◌, or_else, if◌then◌else◌,
  length,
}
use distributed_file_storage.Api.{
  FileInfo, FilesResponse, message_or, Outcome, resolved, rejected, Reply, PollingArgument, number,
  config,
}
use distributed_file_storage.Backoff.{Factor, default_factor, backoff_interval}
use distributed_file_storage.Runtime.{Runtime, clear_timeout?, new_controller, abort?}
use distributed_file_storage.Runtime.Listeners.{add, delete, call, notify_listeners}
use Search.{filter_files}

unfoldable pub new : ℕ → FileService
new now = record {
  files = [];
  total_files = 0;
  total_size_bytes = 0;
  reachable = false;
  last_error = none;
  last_timestamp = now;
  search_query = "";
  upload_state = none;
  download_state = none;
  delete_state = none;
  consecutive_failures = 0;
  current_interval_ms = 3000;
  listeners = [];
  timer_id = none;
  abort_controller = none;
  is_polling = false;
  base_interval_ms = 3000;
  max_interval_ms = 15000;
  backoff_factor = default_factor;
  request_timeout_ms = 5000;
}

-- `getFilteredFiles`
unfoldable pub get_filtered_files : FileService → List FileInfo
get_filtered_files s = filter_files s.search_query s.files

unfoldable pub get_result : FileService → FileServiceResult
get_result s = record {
  files = get_filtered_files s;
  total_files = s.total_files;
  total_size_bytes = s.total_size_bytes;
  reachable = s.reachable;
  timestamp = s.last_timestamp;
  error = s.last_error;
  search_query = s.search_query;
  upload_state = s.upload_state;
  download_state = s.download_state;
  delete_state = s.delete_state;
  consecutive_failures = s.consecutive_failures;
  current_interval_ms = s.current_interval_ms;
}

-- `this.notifyListeners(this.getResult())`
unfoldable pub notify : FileService → FileRuntime → FileRuntime
notify s rt = notify_listeners s.listeners (get_result s) rt

unfoldable pub calculate_backoff_interval : FileService → ℕ → ℕ
calculate_backoff_interval s failures =
    backoff_interval s.base_interval_ms s.max_interval_ms s.backoff_factor failures

-- `files.reduce((acc, f) => acc + (f.size || 0), 0)`
unfoldable pub sum_sizes : List FileInfo → ℕ
sum_sizes [] = 0
sum_sizes (f ∷ fs) = f.size + sum_sizes fs

-- `fetchFiles` up to its `await`.
unfoldable pub begin_fetch : FileService → FileRuntime → FileService × FileRuntime
begin_fetch s rt =
    let (id, rt') = new_controller rt in (record s { abort_controller = some id }, rt')

-- `fetchFiles` after the `await`: the `try` branch on a response, the `catch` branch on an error, and
-- `finally`.
unfoldable pub settle : Outcome FilesResponse → ℕ → FileService → FileService
settle (resolved response) now s =
    let fs = or_else response.files [] in
    record s {
      files = fs;
      total_files = or_else response.total_files (length fs);
      total_size_bytes = or_else response.total_size_bytes (sum_sizes fs);
      reachable = true;
      last_error = none;
      last_timestamp = now;
      consecutive_failures = 0;
      current_interval_ms = s.base_interval_ms;
      abort_controller = none;
    }
settle (rejected err) now s =
    let failures = suc s.consecutive_failures in
    record s {
      reachable = false;
      last_error = some (message_or "Failed to query file ledger" err);
      last_timestamp = now;
      consecutive_failures = failures;
      current_interval_ms = calculate_backoff_interval s failures;
      abort_controller = none;
    }

-- `fetchFiles` from the `await` to its end.
unfoldable pub fetch_files :
    Reply FilesResponse → FileService → FileRuntime → FileService × FileRuntime
fetch_files reply s rt = let s' = settle reply.outcome reply.now s in (s', notify s' rt)

-- `refreshFiles` before it calls `fetchFiles`.
unfoldable pub reset_backoff : FileService → FileService
reset_backoff s = record s { consecutive_failures = 0; current_interval_ms = s.base_interval_ms }

-- `refreshFiles` up to the `await` of `fetchFiles`.
unfoldable pub refresh_files : FileService → FileRuntime → FileService × FileRuntime
unfolding reset_backoff begin_fetch
refresh_files s rt = begin_fetch (reset_backoff s) rt

unfoldable pub set_search_query : String → FileService → FileRuntime → FileService × FileRuntime
set_search_query query s rt = let s' = record s { search_query = query } in (s', notify s' rt)

-- The settings of `startPolling`.
unfoldable pub configure : PollingArgument FilePollingConfig → FileService → FileService
configure (number n) s = record s { base_interval_ms = n; current_interval_ms = n }
configure (config c) s =
    let base = or_else c.base_interval_ms (or_else c.interval_ms 3000) in
    record s {
      base_interval_ms = base;
      max_interval_ms = or_else c.max_interval_ms 15000;
      backoff_factor = or_else c.backoff_factor default_factor;
      request_timeout_ms = or_else c.request_timeout_ms 5000;
      current_interval_ms = base;
    }

unfoldable pub stop_polling : FileService → FileRuntime → FileService × FileRuntime
stop_polling s rt = (
  record s { is_polling = false; timer_id = none; abort_controller = none },
  abort? s.abort_controller (clear_timeout? s.timer_id rt),
)

-- The listener is called at once; the flag says whether it threw, which ends the call.
unfoldable pub subscribe : ℕ → FileService → FileRuntime → FileService × FileRuntime × Bool
subscribe listener s rt =
    let s' = record s { listeners = add listener s.listeners } in
    let (rt', thrown) = call listener (get_result s') rt in (s', rt', thrown)

unfoldable pub unsubscribe : ℕ → FileService → FileService
unsubscribe listener s = record s { listeners = delete listener s.listeners }

unfoldable pub reset : FileService → FileRuntime → FileService × FileRuntime
unfolding stop_polling
reset s rt =
    let (s', rt') = stop_polling s rt in
    (
      record s' {
        files = [];
        total_files = 0;
        total_size_bytes = 0;
        search_query = "";
        upload_state = none;
        download_state = none;
        delete_state = none;
        reachable = false;
        last_error = none;
        consecutive_failures = 0;
        current_interval_ms = s'.base_interval_ms;
        listeners = [];
      },
      rt',
    )

-- The delay before the next execution of the loop.
unfoldable pub next_delay : FileService → ℕ
next_delay s = if s.reachable then s.base_interval_ms else s.current_interval_ms

unfoldable pub get_upload_state : FileService → Option UploadState
get_upload_state s = s.upload_state

unfoldable pub get_download_state : FileService → Option DownloadState
get_download_state s = s.download_state

unfoldable pub get_delete_state : FileService → Option DeleteState
get_delete_state s = s.delete_state

unfoldable pub is_running : FileService → Bool
is_running s = s.is_polling
