-- ===== src/Client/Refusals.antt =====
-- How an answer with an error status reaches the user, through the three functions of
-- frontend/src/api/client.ts that call `fetch` and through the `catch` ladders of
-- frontend/src/services/fileService.ts.
use distributed_file_storage.Prelude.{
  ℕ, String, ◌≡◌, ◌≢◌, refl, sym, subst, ap, ◌∙◌, false, true, some, or_text, truthy?,
}
use distributed_file_storage.Api.{
  UploadFileResponse, ApiClientError, ApiErrorResponse, Thrown, api, Outcome, resolved, rejected,
}
use distributed_file_storage.Runtime.{Runtime}
use distributed_file_storage.Client.{
  Response, Sent, finish_request, answered, request_error, status_error, error_message,
}
use distributed_file_storage.Client.Download.{finish_download_file, downloaded, download_error}
use distributed_file_storage.Client.Upload.{Upload}
use distributed_file_storage.Client.Upload.Fetch.{finish_fetch, fetch_error, fetch_message}
use distributed_file_storage.Files.Messages.{
  upload_message, download_message, delete_message, detail,
}
use distributed_file_storage.Files.Failures.{detail_is_shown}

-- An answer with an error status, whose body has a detail.
abbrev pub Refuses : {T : Type 0} → Response T → ApiErrorResponse → Type 0
Refuses r body =
    (r.ok ≡ false) × (r.status ≢ 0) × (r.error_body ≡ some body) × (truthy? body.detail ≡ true)

-- The call fails with the status of the answer, and the text for its error is the detail.
abbrev pub ShowsDetail :
    {T : Type 0} → Outcome T → (Thrown → String) → ℕ → ApiErrorResponse → Type 0
ShowsDetail o text status body =
    (e : ApiClientError) × (o ≡ rejected (api e))
    × (e.status ≡ status)
    × (text (api e) ≡ or_text body.detail "")

-- Each ladder shows the detail of the error of an answer that refuses.
module _ {T : Type 0} (url message : String) (r : Response T) (body : ApiErrorResponse)
    (refuses : Refuses r body) where
  detail-status_error : detail (status_error url message r) ≡ body.detail
  unfolding status_error
  detail-status_error = let (_, _, given, _) = refuses in rw given refl

  ladders-status_error :
      (target file_id : String)
      → let err = api (status_error url message r) in
        (upload_message err ≡ or_text body.detail "")
        × (download_message target err ≡ or_text body.detail "")
        × (delete_message file_id err ≡ or_text body.detail "")
  unfolding status_error
  ladders-status_error target file_id =
      let (_, status, _, given) = refuses in
      let same = detail-status_error in
      let (up, down, gone) =
        detail_is_shown (status_error url message r) target file_id status
          (subst (λ d. truthy? d ≡ true) (sym same) given) in
      let as_body = ap (λ d. or_text d "") same in (up ∙ as_body, down ∙ as_body, gone ∙ as_body)

-- An answer with an error status and a detail, to a request of a deletion, to a download or to an upload by
-- `fetch`, ends the call with an error of that status, and the text of the failure for the user is the detail.
pub refused_call-ShowsDetail :
    {R T B : Type 0} (sent : Sent) (rt : Runtime R) (body : ApiErrorResponse)
    → (decode : String → Outcome String) (u : Upload) (target file_id : String)
    → (deletion : Response T) (download : Response B) (upload : Response UploadFileResponse)
    → Refuses deletion body
    → Refuses download body
    → Refuses upload body
    → ShowsDetail
        (finish_request sent (resolved deletion) rt).0
        (delete_message file_id)
        deletion.status
        body
      × ShowsDetail
          (finish_download_file decode file_id sent (resolved download) rt).0
          (download_message target)
          download.status
          body
      × ShowsDetail (finish_fetch u sent (resolved upload) rt).0 upload_message upload.status body
unfolding finish_request answered request_error finish_download_file downloaded download_error
    finish_fetch fetch_error status_error
refused_call-ShowsDetail sent rt body decode u target file_id deletion download upload p q r =
    let gone =
      (ladders-status_error sent.url (error_message deletion) deletion body p target file_id).2 in
    let down =
      (ladders-status_error sent.url (error_message download) download body q target file_id).1 in
    let up = (ladders-status_error u.url (fetch_message upload) upload body r target file_id).0 in
    (
      (status_error sent.url (error_message deletion) deletion, rw p.0 refl, refl, gone),
      (status_error sent.url (error_message download) download, rw q.0 refl, refl, down),
      (status_error u.url (fetch_message upload) upload, rw r.0 refl, refl, up),
    )
