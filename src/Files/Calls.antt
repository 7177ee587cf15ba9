-- ===== src/Files/Calls.antt =====
-- Every call of the file service, and every continuation of one, as a step. The steps of several calls
-- may interleave in any way.
use distributed_file_storage.Prelude.{ℕ, String, Bool, Option, List, [], ◌∷◌}
use distributed_file_storage.Api.{ClusterState, FilesResponse, Thrown, Reply, PollingArgument}
use distributed_file_storage.Files.{
  FileService, FileRuntime, FilePollingConfig, begin_fetch, fetch_files, refresh_files,
  set_search_query, configure, stop_polling, subscribe, unsubscribe, reset,
}
use distributed_file_storage.Files.Upload.{
  Source, begin_upload, on_progress, upload_succeeded, upload_refreshed, clear_upload,
  upload_failed, set_upload_error, dismiss_upload_error, retry_last_upload,
}
use distributed_file_storage.Files.Download.{
  begin_download, download_succeeded, download_failed, dismiss_download_error,
}
use distributed_file_storage.Files.Deletion.{
  Removed, begin_delete, delete_succeeded, delete_failed, set_confirming_delete,
  dismiss_delete_error,
}

pub data Call : Type 0 where
  fetch_begins : Call
  fetch_ends : Reply FilesResponse → Call
  refresh_begins : Call
  search : String → Call
  upload_begins : Source → Option String → Option ClusterState → Call
  upload_progresses : (percent loaded total : ℕ) → Call
  upload_succeeds : Source → String → Call
  upload_refreshes : Reply FilesResponse → Call
  upload_clears : Call
  upload_fails : Source → String → Thrown → Call
  upload_error_set : (filename message : String) → Call
  upload_dismissed : Call
  upload_retried : Call
  download_begins : String → Option String → Call
  download_succeeds : Bool → String → Option String → String → Call
  download_fails : String → Option String → Thrown → Call
  download_dismissed : Call
  delete_begins : String → Option ClusterState → Call
  delete_succeeds : Call
  delete_fails : String → Removed → Thrown → Call
  delete_confirming : Option String → Call
  delete_dismissed : Call
  configured : PollingArgument FilePollingConfig → Call
  stopped : Call
  subscribed unsubscribed : ℕ → Call
  cleared : Call

unfoldable pub perform : Call → FileService → FileRuntime → FileService × FileRuntime
perform fetch_begins s rt = begin_fetch s rt
perform (fetch_ends reply) s rt = fetch_files reply s rt
perform refresh_begins s rt = refresh_files s rt
perform (search q) s rt = set_search_query q s rt
perform (upload_begins src name c) s rt = let r = begin_upload src name c s rt in (r.0, r.1)
perform (upload_progresses p l t) s rt = on_progress p l t s rt
perform (upload_succeeds src name) s rt = upload_succeeded src name s rt
perform (upload_refreshes reply) s rt = upload_refreshed reply s rt
perform upload_clears s rt = clear_upload s rt
perform (upload_fails src name err) s rt = let r = upload_failed src name err s rt in (r.0, r.1)
perform (upload_error_set name message) s rt = set_upload_error name message s rt
perform upload_dismissed s rt = dismiss_upload_error s rt
perform upload_retried s rt = let r = retry_last_upload s rt in (r.0, r.1)
perform (download_begins id name) s rt = begin_download id name s rt
perform (download_succeeds b id name resolved) s rt =
    let r = download_succeeded b id name resolved s rt in (r.0, r.1)
perform (download_fails id name err) s rt = let r = download_failed id name err s rt in (r.0, r.1)
perform download_dismissed s rt = dismiss_download_error s rt
perform (delete_begins id c) s rt = let r = begin_delete id c s rt in (r.0, r.1)
perform delete_succeeds s rt = delete_succeeded s rt
perform (delete_fails id removed err) s rt = let r = delete_failed id removed err s rt in (r.0, r.1)
perform (delete_confirming id) s rt = set_confirming_delete id s rt
perform delete_dismissed s rt = dismiss_delete_error s rt
perform (configured c) s rt = (configure c s, rt)
perform stopped s rt = stop_polling s rt
perform (subscribed l) s rt = let r = subscribe l s rt in (r.0, r.1)
perform (unsubscribed l) s rt = (unsubscribe l s, rt)
perform cleared s rt = reset s rt

unfoldable pub perform_all : List Call → FileService → FileRuntime → FileService × FileRuntime
perform_all [] s rt = (s, rt)
perform_all (c ∷ cs) s rt = let (s', rt') = perform c s rt in perform_all cs s' rt'
