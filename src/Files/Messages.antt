-- ===== src/Files/Messages.antt =====
-- The texts of the three `catch` ladders of fileService.ts.
use distributed_file_storage.Prelude.{
  ℕ, String, Option, none, some, [], ◌∷◌, ◌==◌, if◌then◌else◌, or_text, truthy?, decimal, template,
}
use distributed_file_storage.Api.{ApiClientError, ApiErrorResponse, Thrown, api, error}

-- `err.errorData?.detail`
abbrev detail_of : Option ApiErrorResponse → Option String
detail_of none = none
detail_of (some e) = e.detail

abbrev pub detail : ApiClientError → Option String
detail e = detail_of e.error_data

-- The last two steps of each ladder: the server's detail, or the status and the message.
unfoldable pub detail_or_status : String → ℕ → Option String → String → String
detail_or_status action status text message =
    if truthy? text
    then or_text text ""
    else template (action ∷ " failed with status " ∷ decimal status ∷ ": " ∷ message ∷ [])

-- `err.message` of another `Error`, and the first value of `errorMsg` for anything else
abbrev plain_message : String → Thrown → String
plain_message fallback (error name message) = message
plain_message fallback _ = fallback

-- The ladders, of the status, the detail and the message of an error of the API.
unfoldable pub upload_ladder : ℕ → Option String → String → String
unfolding detail_or_status
upload_ladder status text message =
    if status == 0
    then "Upload failed: Coordinator at http://127.0.0.1:8000 is unreachable. Connection refused or server offline."
    else if status == 503
    then or_text text
        "Upload paused: Cluster consensus is paused (quorum majority lost). Mutations cannot commit safely until peer nodes reconnect."
    else if status == 413
    then or_text text "Upload failed: File exceeds maximum allowed upload size."
    else if status == 409
    then or_text text "Upload failed: A file with this name already exists in cluster."
    else detail_or_status "Upload" status text message

unfoldable pub upload_message : Thrown → String
unfolding upload_ladder
upload_message (api e) = upload_ladder e.status (detail e) e.message
upload_message err = plain_message "Upload failed: coordinator unreachable" err

-- `target` is `filename || fileId`.
unfoldable pub download_ladder : String → ℕ → Option String → String → String
unfolding detail_or_status
download_ladder target status text message =
    if status == 404
    then or_text text (
        template (
          "Download unavailable: All nodes holding replicas for '" ∷ target
          ∷ "' are offline or unreachable." ∷ []))
    else if status == 0
    then "Download failed: Cannot reach storage node on port 8000. Connection refused or server offline."
    else if status == 503
    then or_text text "Download unavailable: Storage node is currently degraded or unreachable."
    else detail_or_status "Download" status text message

unfoldable pub download_message : String → Thrown → String
unfolding download_ladder
download_message target (api e) = download_ladder target e.status (detail e) e.message
download_message target err = plain_message "Download failed: replica unavailable" err

unfoldable pub delete_ladder : String → ℕ → Option String → String → String
unfolding detail_or_status
delete_ladder file_id status text message =
    if status == 404
    then or_text text
        (template ("File not found: '" ∷ file_id ∷ "' does not exist in cluster." ∷ []))
    else if status == 0
    then "Deletion failed: Coordinator at http://127.0.0.1:8000 is unreachable. Connection refused."
    else if status == 503
    then or_text text
        "Deletion failed: Consensus is paused (quorum majority lost). Cannot commit file deletion safely."
    else detail_or_status "Deletion" status text message

unfoldable pub delete_message : String → Thrown → String
unfolding delete_ladder
delete_message file_id (api e) = delete_ladder file_id e.status (detail e) e.message
delete_message file_id err = plain_message "Failed to delete file from cluster" err
