-- ===== src/Client/Upload.antt =====
-- `uploadFile` of frontend/src/api/client.ts: with an `XMLHttpRequest`, whose events settle the promise,
-- and with `fetch` (the child), which it uses where there is no `XMLHttpRequest` or the caller gave a signal.
pub mod Fetch
pub mod Begin
use distributed_file_storage.Prelude.{
  ℕ, ◌*◌, min, String, Bool, false, ◌&&◌, Option, none, some, List, [], ◌∷◌, or_else, or_text, leb,
  ltb, if◌then◌else◌, ◌==◌, template, decimal, str_eq,
}
use distributed_file_storage.Api.{
  ApiErrorResponse, UploadFileResponse, ApiClientError, Thrown, api, error, other, Outcome,
  resolved, rejected,
}
use distributed_file_storage.Backoff.{round_div}
use distributed_file_storage.Runtime.{Runtime, clear_timeout}
use distributed_file_storage.Files.Upload.{Source, own_name, size}
use distributed_file_storage.Client.{
  Client, RequestOptions, Response, Sent, send, build_url, own_error, caught, status_error,
  detail_of, message_of,
}

-- `UploadOptions`; the progress callback by whether there is one, its calls are collected.
pub record UploadOptions : Type 0 where
  pub request : RequestOptions
  pub open request use *
  pub on_progress : Bool

abbrev pub Progress : Type 0
Progress = ℕ × ℕ × ℕ

-- `string | UploadOptions`
pub data FilenameOrOptions : Type 0 where
  filename : String → FilenameOrOptions
  options : UploadOptions → FilenameOrOptions

abbrev no_options : UploadOptions
no_options = record {
  request = record {
    base_url = none;
    timeout_ms = none;
    signal = none;
    headers = [];
    method = none;
  };
  on_progress = false;
}

unfoldable pub chosen_name : Source → Option FilenameOrOptions → String
chosen_name src (some (filename name)) = name
chosen_name src _ = own_name src

unfoldable pub chosen_options : Option FilenameOrOptions → Option UploadOptions → UploadOptions
chosen_options (some (options o)) extra = o
chosen_options _ extra = or_else extra no_options

abbrev upload_url : Client → UploadOptions → String
upload_url client opts = build_url (or_else opts.base_url client.base_url) "/files/upload"

-- An upload that is under way: what its callbacks close over.
pub record Upload : Type 0 where
  pub url : String
  pub name : String
  pub size : ℕ
  pub timeout_ms : ℕ
  pub on_progress : Bool

unfoldable pub new_upload :
    Client → Source → Option FilenameOrOptions → Option UploadOptions → Upload
unfolding chosen_name chosen_options
new_upload client src filename_or_options extra =
    let opts = chosen_options filename_or_options extra in
    record {
      url = upload_url client opts;
      name = chosen_name src filename_or_options;
      size = size src;
      timeout_ms = or_else opts.timeout_ms 30000;
      on_progress = opts.on_progress;
    }

-- `xhr.response` read as JSON: an object, as the payload and as an error, or anything else.
pub data XhrBody : Type 0 where
  object : UploadFileResponse → ApiErrorResponse → XhrBody
  no_object : XhrBody

pub data XhrEvent : Type 0 where
  progress : (computable : Bool) (loaded total : ℕ) → XhrEvent
  load : (status : ℕ) → XhrBody → XhrEvent
  failed : XhrEvent
  timeout : XhrEvent

-- The promise, once it is settled, and the calls of the progress callback, the latest first.
pub record Promise : Type 0 where
  pub settled : Option (Outcome UploadFileResponse)
  pub calls : List Progress

abbrev pub first_settled :
    Outcome UploadFileResponse
    → Option (Outcome UploadFileResponse)
    → Option (Outcome UploadFileResponse)
first_settled outcome none = some outcome
first_settled outcome (some earlier) = some earlier

-- `resolve` and `reject`: the first call settles the promise, a later one does nothing.
unfoldable pub settle : Outcome UploadFileResponse → Promise → Promise
settle outcome p = record p { settled = first_settled outcome p.settled }

abbrev pub report : Upload → Progress → Promise → Promise
report u call p = if u.on_progress then record p { calls = call ∷ p.calls } else p

-- `Math.min(100, Math.round((loaded / total) * 100))`, for a total above 0
unfoldable pub percent_of : ℕ → ℕ → ℕ
percent_of loaded total = min 100 (round_div (100 * loaded) total)

abbrev response_of : Upload → XhrBody → UploadFileResponse
response_of u (object r e) = r
response_of u no_object = record { message = "File uploaded successfully"; filename = u.name }

abbrev error_of : XhrBody → Option ApiErrorResponse
error_of (object r e) = some e
error_of no_object = none

-- The text for a status that comes with none of its own.
unfoldable pub status_text : ℕ → String
status_text status =
    if status == 503
    then "Cluster consensus paused (HTTP 503 Quorum Lost): Mutations cannot commit without majority consensus"
    else if status == 413
    then "File exceeds maximum allowed upload size"
    else if status == 409
    then "File with this name already exists in cluster ledger"
    else if status == 404
    then "Upload endpoint not found on coordinator"
    else template ("Upload failed with status " ∷ decimal status ∷ [])

unfoldable pub load_error : Upload → ℕ → XhrBody → ApiClientError
unfolding status_text
load_error u status body =
    let msg =
      or_text (detail_of (error_of body))
        (or_text (message_of (error_of body)) (status_text status)) in
    record {
      message =
          template
            ("Request to " ∷ u.url ∷ " failed with status " ∷ decimal status ∷ ": " ∷ msg ∷ []);
      status = status;
      url = u.url;
      error_data = error_of body;
    }

-- `xhr.onload`: within the test of the status both `resolve` and `reject` are called; there is no `else`.
unfoldable pub on_load : Upload → ℕ → XhrBody → Promise → Promise
unfolding settle load_error
on_load u status body p =
    let reported = report u (100, u.size, u.size) p in
    if leb 200 status && ltb status 300
    then settle (rejected (api (load_error u status body)))
        (settle (resolved (response_of u body)) reported)
    else p

-- One event of the request, with its handler.
unfoldable pub handle : Upload → XhrEvent → Promise → Promise
unfolding on_load percent_of
handle u (progress computable loaded total) p =
    if computable then report u (percent_of loaded total, loaded, total) p else p
handle u (load status body) p = on_load u status body p
handle u failed p =
    settle
      (rejected (
        own_error
          "Coordinator unreachable: Cannot connect to HTTP API on port 8000. Connection refused or server offline."
          0 u.url))
      p
handle u timeout p =
    settle
      (rejected (
        own_error
          (template ("Upload to " ∷ u.url ∷ " timed out after " ∷ decimal u.timeout_ms ∷ "ms" ∷ []))
          408 u.url))
      p

unfoldable pub handle_all : Upload → List XhrEvent → Promise → Promise
unfolding handle
handle_all u [] p = p
handle_all u (e ∷ es) p = handle_all u es (handle u e p)

abbrev pub pending : Promise
pending = record { settled = none; calls = [] }
