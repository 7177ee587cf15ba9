-- ===== src/Files/Download.antt =====
-- `downloadFile` of fileService.ts. What the browser does with the bytes is an answer: the name under
-- which it is asked to save them, where it has a window, a document and object URLs.
use distributed_file_storage.Prelude.{
  String, Bool, true, false, Option, none, some, if◌then◌else◌, truthy?, or_text,
}
use distributed_file_storage.Api.{Thrown}
use distributed_file_storage.Runtime.{set_one_shot}
use distributed_file_storage.Files.Messages.{download_message}
use distributed_file_storage.Files.{DownloadState, FileService, FileRuntime, notify}

-- `this.downloadState = state; this.notifyListeners(this.getResult())`
abbrev set_download : Option DownloadState → FileService → FileRuntime → FileService × FileRuntime
set_download state s rt = let s' = record s { download_state = state } in (s', notify s' rt)

-- `downloadFile` up to its `await`.
unfoldable pub begin_download :
    String → Option String → FileService → FileRuntime → FileService × FileRuntime
begin_download file_id filename =
    set_download (
      some (record { is_downloading = true; file_id = file_id; filename = filename; error = none }))

-- `resolvedFilename || filename || fileId`
abbrev pub download_name : String → Option String → String → String
download_name resolved filename file_id = or_text (some resolved) (or_text filename file_id)

-- `downloadFile` after the response: the name that the browser saves under, if it can, and the timer
-- that revokes the object's URL.
unfoldable pub download_succeeded :
    Bool
    → String
    → Option String
    → String
    → FileService
    → FileRuntime
    → FileService × FileRuntime × Option String
download_succeeded in_browser file_id filename resolved s rt =
    let name = download_name resolved filename file_id in
    let (s₁, rt₁) = set_download none s (set_one_shot 1000 rt) in
    let (s₂, rt₂) = set_download none s rt in
    if in_browser then (s₁, rt₁, some name) else (s₂, rt₂, none)

-- The `catch` branch, which throws the error on.
unfoldable pub download_failed :
    String → Option String → Thrown → FileService → FileRuntime → FileService × FileRuntime × Thrown
download_failed file_id filename err s rt =
    let failed : DownloadState = record {
      is_downloading = false;
      file_id = file_id;
      filename = filename;
      error = some (download_message (or_text filename file_id) err);
    } in
    let (s', rt') = set_download (some failed) s rt in (s', rt', err)

abbrev pub download_error : Option DownloadState → Option String
download_error none = none
download_error (some d) = d.error

unfoldable pub dismiss_download_error : FileService → FileRuntime → FileService × FileRuntime
dismiss_download_error s rt =
    if truthy? (download_error s.download_state) then set_download none s rt else (s, rt)
