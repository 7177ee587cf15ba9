-- ===== src/Client/Download.antt =====
-- `downloadFile` of frontend/src/api/client.ts: the request, the name that the answer gives the file, and
-- the errors.
use distributed_file_storage.Prelude.{
  String, Option, none, some, [], ◌∷◌, or_else, if◌then◌else◌, template, decimal, str_eq,
}
use distributed_file_storage.Api.{Thrown, api, error, other, Outcome, resolved, rejected}
use distributed_file_storage.Runtime.{Runtime, clear_timeout}
use distributed_file_storage.Client.Disposition.{disposition_name}
use distributed_file_storage.Client.{
  Client, RequestOptions, Response, Sent, send, build_url, own_error, caught, status_error,
  error_message,
}

-- `encode` is the browser's `encodeURIComponent`.
module _ (encode : String → String) where
  -- `downloadFile` up to its first `await`.
  unfoldable pub begin_download_file :
      {R : Type 0} → Client → String → RequestOptions → Runtime R → Sent × Runtime R
  unfolding send
  begin_download_file client file_id options rt =
      send
        (build_url (or_else options.base_url client.base_url)
          (template ("/files/" ∷ encode file_id ∷ [])))
        "GET" options.headers (or_else options.timeout_ms 30000) rt

-- The `catch` clause.
unfoldable pub download_error : Sent → Thrown → Thrown
download_error sent (api e) = api e
download_error sent (error name message) =
    if str_eq name "AbortError"
    then own_error (template ("Download timed out after " ∷ decimal sent.timeout_ms ∷ "ms" ∷ []))
        408 sent.url
    else own_error
        (template
          ("Download failed: Cannot reach storage node on port 8000 (" ∷ message ∷ ")" ∷ []))
        0 sent.url
download_error sent other =
    own_error
      (template (
        "Download failed: Cannot reach storage node on port 8000 ("
        ∷ "Connection refused or server offline" ∷ ")" ∷ []))
      0 sent.url

-- The payload and the name that the file is saved under.
pub record DownloadFileResult (B : Type 0) : Type 0 where
  pub blob : B
  pub filename : String

-- The name from the header, or the identity of the file. `decode` is the browser's `decodeURIComponent`,
-- which throws on a malformed escape.
unfoldable pub download_name :
    (decode : String → Outcome String) → String → Option String → Outcome String
unfolding disposition_name
download_name decode file_id disposition = elim (disposition_name disposition) [
  | none ↦ resolved file_id
  | some name ↦ decode name
]

module _ {B : Type 0} (decode : String → Outcome String) where
  abbrev with_name : Outcome String → Outcome B → Outcome (DownloadFileResult B)
  with_name (rejected err) body = rejected err
  with_name (resolved name) (rejected err) = rejected err
  with_name (resolved name) (resolved b) = resolved (record { blob = b; filename = name })

  -- The body of the `try` from its first `await`.
  unfoldable pub downloaded :
      String → String → Outcome (Response B) → Outcome (DownloadFileResult B)
  unfolding download_name error_message status_error
  downloaded file_id url (rejected err) = rejected err
  downloaded file_id url (resolved r) =
      if r.ok
      then with_name (download_name decode file_id r.disposition) r.body
      else rejected (api (status_error url (error_message r) r))

  -- `downloadFile` from its first `await`, with the `finally` that clears the timer.
  unfoldable pub finish_download_file :
      {R : Type 0}
      → String
      → Sent
      → Outcome (Response B)
      → Runtime R
      → Outcome (DownloadFileResult B) × Runtime R
  unfolding downloaded download_error
  finish_download_file file_id sent reply rt = (
    caught (download_error sent) (downloaded file_id sent.url reply),
    clear_timeout sent.timer rt,
  )
