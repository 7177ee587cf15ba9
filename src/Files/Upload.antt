-- ===== src/Files/Upload.antt =====
-- `uploadFile` of fileService.ts with what follows it: progress, failure, retry, and the timer that
-- clears the card of an upload that succeeded.
use distributed_file_storage.Prelude.{
  ℕ, String, Bool, true, false, not, ◌&&◌, Option, none, some, if◌then◌else◌, truthy?, or_text,
}
use distributed_file_storage.Api.{ClusterState, FilesResponse, Thrown, error, Reply, is_no_majority}
use distributed_file_storage.Runtime.{set_one_shot}
use distributed_file_storage.Files.Messages.{upload_message}
use distributed_file_storage.Files.{
  File, UploadState, FileService, FileRuntime, notify, refresh_files, fetch_files,
}

-- `File | Blob`
pub data Source : Type 0 where
  file : File → Source
  blob : ℕ → Source

abbrev pub size : Source → ℕ
size (file f) = f.size
size (blob n) = n

-- `file instanceof File ? file : null`
abbrev pub as_file : Source → Option File
as_file (file f) = some f
as_file (blob n) = none

abbrev pub own_name : Source → String
own_name (file f) = f.name
own_name (blob n) = "upload.bin"

-- `filename || (file instanceof File ? file.name : 'upload.bin')`
abbrev pub upload_name : Source → Option String → String
upload_name src filename = or_text filename (own_name src)

abbrev pub paused_message : String
paused_message =
    "Upload paused: Cluster consensus is paused (quorum majority lost). File cannot be replicated safely until peer nodes reconnect."

-- `this.uploadState = state; this.notifyListeners(this.getResult())`
abbrev set_upload : Option UploadState → FileService → FileRuntime → FileService × FileRuntime
set_upload state s rt = let s' = record s { upload_state = state } in (s', notify s' rt)

abbrev pub failed_state : String → ℕ → String → Option File → UploadState
failed_state name total message failed = record {
  is_uploading = false;
  filename = name;
  percent = 0;
  loaded_bytes = 0;
  total_bytes = total;
  error = some message;
  last_failed_file = failed;
}

-- How the first part of an upload ends: it throws, or it waits for the API with the name it chose.
pub data Begun : Type 0 where
  refused : Thrown → Begun
  sent : (name : String) → Begun

-- `uploadFile` up to the `await` of the API.
unfoldable pub begin_upload :
    Source
    → Option String
    → Option ClusterState
    → FileService
    → FileRuntime
    → FileService × FileRuntime × Begun
begin_upload src filename cluster s rt =
    let name = upload_name src filename in
    let paused = failed_state name (size src) paused_message (as_file src) in
    let started : UploadState = record {
      is_uploading = true;
      filename = name;
      percent = 0;
      loaded_bytes = 0;
      total_bytes = size src;
      error = none;
      last_failed_file = as_file src;
    } in
    let (s₁, rt₁) = set_upload (some paused) s rt in
    let (s₂, rt₂) = set_upload (some started) s rt in
    if is_no_majority cluster
    then (s₁, rt₁, refused (error "Error" paused_message))
    else (s₂, rt₂, sent name)

-- The progress of the API's upload. The caller's own callback, which runs after this, is left out.
abbrev pub progressed : ℕ → ℕ → ℕ → UploadState → UploadState
progressed percent loaded total u = record u {
  percent = percent;
  loaded_bytes = loaded;
  total_bytes = total;
}

abbrev pub progress_of : ℕ → ℕ → ℕ → Option UploadState → Option UploadState
progress_of percent loaded total none = none
progress_of percent loaded total (some u) =
    if u.is_uploading then some (progressed percent loaded total u) else none

unfoldable pub apply_progress :
    Option UploadState → FileService → FileRuntime → FileService × FileRuntime
apply_progress none s rt = (s, rt)
apply_progress (some u) s rt = set_upload (some u) s rt

unfoldable pub on_progress : ℕ → ℕ → ℕ → FileService → FileRuntime → FileService × FileRuntime
unfolding apply_progress
on_progress percent loaded total s rt =
    apply_progress (progress_of percent loaded total s.upload_state) s rt

-- `uploadFile` after the API's response, up to the `await` of `refreshFiles`.
unfoldable pub upload_succeeded :
    Source → String → FileService → FileRuntime → FileService × FileRuntime
upload_succeeded src name s rt =
    let done : UploadState = record {
      is_uploading = false;
      filename = name;
      percent = 100;
      loaded_bytes = size src;
      total_bytes = size src;
      error = none;
      last_failed_file = none;
    } in
    let (s', rt') = set_upload (some done) s rt in refresh_files s' rt'

-- `uploadFile` after `refreshFiles`: the timer that clears the card is set.
unfoldable pub upload_refreshed :
    Reply FilesResponse → FileService → FileRuntime → FileService × FileRuntime
upload_refreshed reply s rt = let (s', rt') = fetch_files reply s rt in (s', set_one_shot 1200 rt')

-- `!this.uploadState.isUploading && !this.uploadState.error`
abbrev pub is_done : Option UploadState → Bool
is_done none = false
is_done (some u) = not u.is_uploading && not (truthy? u.error)

-- The callback of that timer.
unfoldable pub clear_upload : FileService → FileRuntime → FileService × FileRuntime
clear_upload s rt = if is_done s.upload_state then set_upload none s rt else (s, rt)

-- The `catch` branch, which throws the error on.
unfoldable pub upload_failed :
    Source → String → Thrown → FileService → FileRuntime → FileService × FileRuntime × Thrown
upload_failed src name err s rt =
    let failed = failed_state name (size src) (upload_message err) (as_file src) in
    let (s', rt') = set_upload (some failed) s rt in (s', rt', err)

unfoldable pub set_upload_error :
    String → String → FileService → FileRuntime → FileService × FileRuntime
set_upload_error filename message = set_upload (some (failed_state filename 0 message none))

abbrev pub upload_error : Option UploadState → Option String
upload_error none = none
upload_error (some u) = u.error

unfoldable pub dismiss_upload_error : FileService → FileRuntime → FileService × FileRuntime
dismiss_upload_error s rt =
    if truthy? (upload_error s.upload_state) then set_upload none s rt else (s, rt)

abbrev pub failed_file : Option UploadState → Option File
failed_file none = none
failed_file (some u) = u.last_failed_file

unfoldable pub retry_file :
    Option File → FileService → FileRuntime → FileService × FileRuntime × Option Begun
retry_file none s rt = (s, rt, none)
retry_file (some f) s rt =
    let (s', rt', begun) = begin_upload (file f) none none s rt in (s', rt', some begun)

-- `retryLastUpload` up to the `await`: the cluster's state is not passed on, nor the chosen name.
unfoldable pub retry_last_upload :
    FileService → FileRuntime → FileService × FileRuntime × Option Begun
unfolding retry_file
retry_last_upload s rt = retry_file (failed_file s.upload_state) s rt
