-- ===== src/Tests/Requests.antt =====
-- Runs of the API client.
use distributed_file_storage.Prelude.{
  ℕ, ◌≡◌, refl, true, false, none, some, List, [], ◌∷◌, All, ◌==◌, is_some,
}
use distributed_file_storage.Api.{
  HealthResponse, UploadFileResponse, ApiErrorResponse, Outcome, resolved, rejected,
}
use distributed_file_storage.Runtime.{Runtime}
use distributed_file_storage.Tests.{idle, offline_error}
use distributed_file_storage.Files.Messages.{upload_message, download_message, delete_message}
use distributed_file_storage.Client.{
  Response, Sent, finish_request, build_url, normalized_base, normalized_path,
}
use distributed_file_storage.Client.Upload.{
  Upload, XhrEvent, progress, load, no_object, pending, handle_all,
}
use distributed_file_storage.Client.Laws.{
  EndsAsApi, any_settles, request-EndsAsApi, upload_settles_iff,
}
use distributed_file_storage.Client.Refusals.{ShowsDetail, refused_call-ShowsDetail}
use distributed_file_storage.Client.Download.{finish_download_file}
use distributed_file_storage.Client.Upload.Fetch.{finish_fetch}

build_url_test :
    (build_url "http://h:8000/" "files" ≡ "http://h:8000/files")
    × (build_url "http://h" "/nodes" ≡ "http://h/nodes")
unfolding build_url normalized_base normalized_path
build_url_test = (refl, refl)

abbrev quiet : Runtime ℕ
quiet = idle

abbrev request : Sent
request = record {
  url = "http://localhost:8000/health";
  method = "GET";
  headers = [];
  controller = 1;
  timer = 2;
  timeout_ms = 5000;
}

abbrev refusal : ApiErrorResponse
refusal = record { detail = some "No quorum"; error = none; message = none; status_code = none }

abbrev refused_response : Response HealthResponse
refused_response = record {
  ok = false;
  status = 503;
  status_text = "Service Unavailable";
  disposition = none;
  error_body = some refusal;
  body = rejected offline_error;
}

abbrev no_answer : Outcome (Response HealthResponse)
no_answer = rejected offline_error

request-EndsAsApi_example :
    let (outcome, rt') = finish_request request no_answer quiet in
    EndsAsApi outcome × All (λ t. (t.id == 2) ≡ false) rt'.timers
request-EndsAsApi_example = request-EndsAsApi request no_answer quiet

abbrev upload : Upload
upload = record {
  url = "http://localhost:8000/files/upload";
  name = "cat.png";
  size = 900;
  timeout_ms = 30000;
  on_progress = true;
}

-- Answers with status 503 to a download and to an upload.
abbrev refused_download : Response ℕ
refused_download = record {
  ok = false;
  status = 503;
  status_text = "Service Unavailable";
  disposition = none;
  error_body = some refusal;
  body = rejected offline_error;
}

abbrev refused_fetch : Response UploadFileResponse
refused_fetch = record {
  ok = false;
  status = 503;
  status_text = "Service Unavailable";
  disposition = none;
  error_body = some refusal;
  body = rejected offline_error;
}

refused_call-ShowsDetail_example :
    ShowsDetail
      (finish_request request (resolved refused_response) quiet).0
      (delete_message "f1")
      503
      refusal
    × ShowsDetail
        (finish_download_file resolved "f1" request (resolved refused_download) quiet).0
        (download_message "a.txt")
        503
        refusal
    × ShowsDetail
        (finish_fetch upload request (resolved refused_fetch) quiet).0
        upload_message
        503
        refusal
refused_call-ShowsDetail_example =
    refused_call-ShowsDetail request quiet refusal resolved upload "a.txt" "f1" refused_response
      refused_download refused_fetch (refl, (λ e. cc), refl, refl) (refl, (λ e. cc), refl, refl)
      (refl, (λ e. cc), refl, refl)

-- The coordinator answers an upload with status 503.
abbrev refused_upload : List XhrEvent
refused_upload = progress true 450 900 ∷ load 503 no_object ∷ []

upload_settles_iff_example : is_some (handle_all upload refused_upload pending).settled ≡ false
unfolding any_settles
upload_settles_iff_example = upload_settles_iff upload refused_upload pending
