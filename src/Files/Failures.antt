-- ===== src/Files/Failures.antt =====
-- What a failed call of the API leaves for the user: the text of its banner, the way to dismiss it, and
-- the file to retry.
use distributed_file_storage.Prelude.{
  ℕ, String, ◌≡◌, ◌≢◌, refl, Bool, not, ◌&&◌, ap, true, false, Option, none, some, List, ◌∷◌, arith,
  truthy, truthy?, or_text, template, ◌==◌, if◌then◌else◌,
}
use Prim.Native.Char.{Char}
use text.Mathlib.TextLemmas.{cons-append}
use distributed_file_storage.Api.{ApiClientError, api, error, no_majority}
use distributed_file_storage.Files.{File, UploadState, FileService, FileRuntime, notify}
use distributed_file_storage.Files.Messages.{
  detail, detail_or_status, upload_ladder, download_ladder, delete_ladder, upload_message,
  download_message, delete_message,
}
use distributed_file_storage.Files.Upload.{
  Source, file, as_file, size, sent, refused, paused_message, failed_state, begin_upload,
  upload_failed, dismiss_upload_error, retry_last_upload, retry_file, clear_upload,
}

if-both : (b : Bool) (x y z : String) → x ≡ z → y ≡ z → (if b then x else y) ≡ z
if-both true x y z p q = p
if-both false x y z p q = q

not_zero : (n : ℕ) (x y z : String) → n ≢ 0 → y ≡ z → (if n == 0 then x else y) ≡ z
not_zero n x y z h p = ground arith

-- Where every later rung shows the detail, so does the ladder.
upload_ladder-detail :
    (status : ℕ) (text : Option String) (message : String)
    → status ≢ 0
    → truthy? text ≡ true
    → upload_ladder status text message ≡ or_text text ""
unfolding upload_ladder detail_or_status
upload_ladder-detail status none message h k = cc
upload_ladder-detail status (some String.[]) message h k = cc
upload_ladder-detail status (some (String.◌∷◌ c s)) message h k =
    let t = String.◌∷◌ c s in
    not_zero status _ _ t h (
      if-both (status == 503) t _ t refl
        (if-both (status == 413) t _ t refl (if-both (status == 409) t t t refl refl)))

download_ladder-detail :
    (target : String) (status : ℕ) (text : Option String) (message : String)
    → status ≢ 0
    → truthy? text ≡ true
    → download_ladder target status text message ≡ or_text text ""
unfolding download_ladder detail_or_status
download_ladder-detail target status none message h k = cc
download_ladder-detail target status (some String.[]) message h k = cc
download_ladder-detail target status (some (String.◌∷◌ c s)) message h k =
    let t = String.◌∷◌ c s in
    if-both (status == 404) t _ t refl
      (not_zero status _ _ t h (if-both (status == 503) t t t refl refl))

delete_ladder-detail :
    (file_id : String) (status : ℕ) (text : Option String) (message : String)
    → status ≢ 0
    → truthy? text ≡ true
    → delete_ladder file_id status text message ≡ or_text text ""
unfolding delete_ladder detail_or_status
delete_ladder-detail file_id status none message h k = cc
delete_ladder-detail file_id status (some String.[]) message h k = cc
delete_ladder-detail file_id status (some (String.◌∷◌ c s)) message h k =
    let t = String.◌∷◌ c s in
    if-both (status == 404) t _ t refl
      (not_zero status _ _ t h (if-both (status == 503) t t t refl refl))

-- For an error of the API with a status and a detail, all three texts are that detail,
-- whatever the status is.
pub detail_is_shown :
    (e : ApiClientError) (target file_id : String)
    → e.status ≢ 0
    → truthy? (detail e) ≡ true
    → (upload_message (api e) ≡ or_text (detail e) "")
      × (download_message target (api e) ≡ or_text (detail e) "")
      × (delete_message file_id (api e) ≡ or_text (detail e) "")
unfolding upload_message download_message delete_message
detail_is_shown e target file_id answered h = (
  upload_ladder-detail e.status (detail e) e.message answered h,
  download_ladder-detail target e.status (detail e) e.message answered h,
  delete_ladder-detail file_id e.status (detail e) e.message answered h,
)

if-truthy :
    (b : Bool) (x y : String)
    → truthy x ≡ true
    → truthy y ≡ true
    → truthy (if b then x else y) ≡ true
if-truthy true x y h k = h
if-truthy false x y h k = k

template-truthy :
    (c : Char) (s : String) (rest : List String) → truthy (template (String.◌∷◌ c s ∷ rest)) ≡ true
unfolding template
template-truthy c s rest = ap truthy (cons-append c s (template rest))

-- Without an answer of the server the ladder has a text of its own for every status.
upload_ladder-truthy :
    (status : ℕ) (text : Option String) (message : String)
    → truthy (upload_ladder status text message) ≡ true
unfolding upload_ladder detail_or_status
upload_ladder-truthy status none message = if-truthy (status == 0) _ _ refl (
    if-truthy (status == 503) _ _ refl (
      if-truthy (status == 413) _ _ refl
        (if-truthy (status == 409) _ _ refl (template-truthy "U" "pload" _))))
upload_ladder-truthy status (some String.[]) message = if-truthy (status == 0) _ _ refl (
    if-truthy (status == 503) _ _ refl (
      if-truthy (status == 413) _ _ refl
        (if-truthy (status == 409) _ _ refl (template-truthy "U" "pload" _))))
upload_ladder-truthy status (some (String.◌∷◌ c s)) message = if-truthy (status == 0) _ _ refl (
    if-truthy (status == 503) _ _ refl
      (if-truthy (status == 413) _ _ refl (if-truthy (status == 409) _ _ refl refl)))

and-false : (b : Bool) → (b && false) ≡ false
and-false true = refl
and-false false = refl

clear-truthy :
    (m : String) (u : UploadState) (s : FileService) (rt : FileRuntime)
    → truthy m ≡ true
    → (clear_upload
        (record s { upload_state = some (record u { error = some m }) })
        rt).0.upload_state
      ≡ some (record u { error = some m })
unfolding clear_upload
clear-truthy String.[] u s rt h = cc
clear-truthy (String.◌∷◌ c m) u s rt h = rw (and-false (not u.is_uploading)) refl

dismiss-truthy :
    (m : String) (u : UploadState) (s : FileService) (rt : FileRuntime)
    → truthy m ≡ true
    → (dismiss_upload_error
        (record s { upload_state = some (record u { error = some m }) })
        rt).0.upload_state
      ≡ none
unfolding dismiss_upload_error
dismiss-truthy String.[] u s rt h = cc
dismiss-truthy (String.◌∷◌ c m) u s rt h = refl

-- After an upload that the API refused with any error, dismissing the banner clears the card, and it is
-- not the clearing timer of an earlier upload that does so: that timer leaves the card in place.
pub failed_upload_dismissable :
    (src : Source) (name : String) (e : ApiClientError) (s : FileService) (rt : FileRuntime)
    → let (s', rt', thrown) = upload_failed src name (api e) s rt in
      ((dismiss_upload_error s' rt').0.upload_state ≡ none)
      × ((clear_upload s' rt').0.upload_state ≡ s'.upload_state)
unfolding upload_failed upload_message
failed_upload_dismissable src name e s rt =
    let u = failed_state name (size src) (upload_message (api e)) (as_file src) in
    let s' = record s { upload_state = some u } in
    let shown = upload_ladder-truthy e.status (detail e) e.message in
    (
      dismiss-truthy (upload_message (api e)) u s (notify s' rt) shown,
      clear-truthy (upload_message (api e)) u s (notify s' rt) shown,
    )

-- An upload refused for want of a majority is sent by a retry, which asks for no state of the cluster and
-- takes the file's own name.
pub retry_skips_guard :
    (f : File) (name : Option String) (s : FileService) (rt : FileRuntime)
    → let (s', rt', begun) = begin_upload (file f) name (some no_majority) s rt in
      (begun ≡ refused (error "Error" paused_message))
      × ((retry_last_upload s' rt').2 ≡ some (sent f.name))
unfolding begin_upload retry_last_upload retry_file
retry_skips_guard f name s rt = (refl, refl)
