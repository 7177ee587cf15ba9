-- ===== src/Client/Upload/Fetch.antt =====
-- The path of `uploadFile` of frontend/src/api/client.ts that calls `fetch`.
use distributed_file_storage.Prelude.{
  String, some, List, [], ◌∷◌, or_text, if◌then◌else◌, template, decimal, str_eq,
}
use distributed_file_storage.Api.{
  UploadFileResponse, Thrown, api, error, other, Outcome, resolved, rejected,
}
use distributed_file_storage.Runtime.{Runtime, clear_timeout}
use distributed_file_storage.Client.{
  Response, Sent, send, own_error, caught, status_error, detail_of, message_of,
}
use distributed_file_storage.Client.Upload.{Upload, Progress}

-- The error of an answer on the `fetch` path, which does not read the field `error`.
unfoldable pub fetch_message : Response UploadFileResponse → String
fetch_message r = or_text (detail_of r.error_body) (
    or_text (message_of r.error_body)
      (or_text (some r.status_text) (template ("HTTP " ∷ decimal r.status ∷ []))))

-- The `catch` clause of the `fetch` path.
unfoldable pub fetch_error : Upload → Thrown → Thrown
fetch_error u (api e) = api e
fetch_error u (error name message) =
    if str_eq name "AbortError"
    then own_error
        (template ("Upload to " ∷ u.url ∷ " timed out after " ∷ decimal u.timeout_ms ∷ "ms" ∷ []))
        408 u.url
    else own_error
        (template (
          "Coordinator unreachable: Cannot connect to HTTP API on port 8000 (" ∷ message ∷ ")"
          ∷ []))
        0 u.url
fetch_error u other =
    own_error
      (template (
        "Coordinator unreachable: Cannot connect to HTTP API on port 8000 ("
        ∷ "Connection refused or server offline" ∷ ")" ∷ []))
      0 u.url

-- The `fetch` path up to its first `await`, with the calls of the progress callback.
unfoldable pub begin_fetch :
    {R : Type 0} → Upload → List (String × String) → Runtime R → Sent × List Progress × Runtime R
unfolding send
begin_fetch u headers rt =
    let (sent, rt') =
      send u.url "POST" (("Accept", "application/json") ∷ headers) u.timeout_ms rt in
    (sent, (if u.on_progress then (10, 0, u.size) ∷ [] else []), rt')

abbrev fetched :
    Upload → Outcome (Response UploadFileResponse) → Outcome UploadFileResponse × List Progress
fetched u (rejected err) = (rejected err, [])
fetched u (resolved r) =
    if r.ok
    then (r.body, (if u.on_progress then (100, u.size, u.size) ∷ [] else []))
    else (rejected (api (status_error u.url (fetch_message r) r)), [])

-- The `fetch` path from its first `await`, with the `finally` that clears the timer.
unfoldable pub finish_fetch :
    {R : Type 0}
    → Upload
    → Sent
    → Outcome (Response UploadFileResponse)
    → Runtime R
    → Outcome UploadFileResponse × List Progress × Runtime R
unfolding fetch_error fetch_message
finish_fetch u sent reply rt =
    let (outcome, calls) = fetched u reply in
    (caught (fetch_error u) outcome, calls, clear_timeout sent.timer rt)
