-- ===== src/Files/UploadLaws.antt =====
-- The states that an upload passes through, and what its failure leaves behind.
use distributed_file_storage.Prelude.{
  ℕ, String, ◌≡◌, refl, true, false, Option, none, some, List, [], ◌∷◌, ◌⊎◌, inl, inr, arith,
  is_some, truthy?, Bool-cases,
}
use distributed_file_storage.Api.{
  FilesResponse, Outcome, resolved, rejected, PollingArgument, number, config, ClusterState,
  is_no_majority,
}
use distributed_file_storage.Files.{
  File, UploadState, FileService, FileRuntime, FilePollingConfig, new, settle, begin_fetch,
  fetch_files, refresh_files, set_search_query, configure, stop_polling, subscribe, unsubscribe,
  reset,
}
use distributed_file_storage.Files.Upload.{
  Source, file, failed_file, begin_upload, on_progress, upload_succeeded, upload_refreshed,
  clear_upload, upload_failed, set_upload_error, dismiss_upload_error, retry_last_upload,
  apply_progress, progress_of, is_done, upload_error, retry_file,
}
use distributed_file_storage.Files.Download.{
  begin_download, download_succeeded, download_failed, dismiss_download_error,
}
use distributed_file_storage.Files.Deletion.{
  Removed, remove_file, restore_file, find_file, begin_delete, delete_succeeded, delete_failed,
  set_confirming_delete, dismiss_delete_error,
}
use distributed_file_storage.Files.Calls.{Call, perform, perform_all}

-- An upload is under way and has no error; or it has failed, with its reason and nothing counted as
-- sent; or it is done, with everything sent.
abbrev pub IsUpload : UploadState → Type 0
IsUpload u =
    (u.is_uploading ≡ true) × (u.error ≡ none)
    ⊎ (u.is_uploading ≡ false) × (is_some u.error ≡ true) × (u.percent ≡ 0) × (u.loaded_bytes ≡ 0)
    ⊎ (u.is_uploading ≡ false)
      × (u.error ≡ none)
      × (u.percent ≡ 100)
      × (u.loaded_bytes ≡ u.total_bytes)

abbrev pub HasUpload : Option UploadState → Type 0
HasUpload none = Unit
HasUpload (some u) = IsUpload u

settle-upload :
    (o : Outcome FilesResponse) (now : ℕ) (s : FileService)
    → (settle o now s).upload_state ≡ s.upload_state
unfolding settle
settle-upload (resolved r) now s = refl
settle-upload (rejected e) now s = refl

configure-upload :
    (c : PollingArgument FilePollingConfig) (s : FileService)
    → (configure c s).upload_state ≡ s.upload_state
unfolding configure
configure-upload (number n) s = refl
configure-upload (config c) s = refl

remove-upload :
    (removed : Removed) (s : FileService) → (remove_file removed s).upload_state ≡ s.upload_state
unfolding remove_file
remove-upload none s = refl
remove-upload (some x) s = refl

restore-upload :
    (removed : Removed) (s : FileService) → (restore_file removed s).upload_state ≡ s.upload_state
unfolding restore_file
restore-upload none s = refl
restore-upload (some x) s = refl

begin-HasUpload :
    (src : Source) (name : Option String) (c : Option ClusterState) (s : FileService)
    (rt : FileRuntime)
    → HasUpload (begin_upload src name c s rt).0.upload_state
unfolding begin_upload
begin-HasUpload src name c s rt = elim (Bool-cases (is_no_majority c)) [
  | inl paused ↦ rw paused (inr (inl (refl, refl, refl, refl)))
  | inr running ↦ rw running (inl (refl, refl))
]

progress_of-HasUpload :
    (p l t : ℕ) (o : Option UploadState) → HasUpload o → HasUpload (progress_of p l t o)
progress_of-HasUpload p l t none h = tt
progress_of-HasUpload p l t (some u) h = elim (Bool-cases u.is_uploading) [
  | inl on ↦ rw on (ground arith)
  | inr off ↦ rw off tt
]

apply-HasUpload :
    (o : Option UploadState) (s : FileService) (rt : FileRuntime)
    → HasUpload o
    → HasUpload s.upload_state
    → HasUpload (apply_progress o s rt).0.upload_state
unfolding apply_progress
apply-HasUpload none s rt new_state old = old
apply-HasUpload (some u) s rt new_state old = new_state

clear-HasUpload :
    (s : FileService) (rt : FileRuntime)
    → HasUpload s.upload_state
    → HasUpload (clear_upload s rt).0.upload_state
unfolding clear_upload
clear-HasUpload s rt h = elim (Bool-cases (is_done s.upload_state)) [
  | inl over ↦ rw over tt
  | inr kept ↦ rw kept h
]

dismiss-HasUpload :
    (s : FileService) (rt : FileRuntime)
    → HasUpload s.upload_state
    → HasUpload (dismiss_upload_error s rt).0.upload_state
unfolding dismiss_upload_error
dismiss-HasUpload s rt h = elim (Bool-cases (truthy? (upload_error s.upload_state))) [
  | inl shown ↦ rw shown tt
  | inr kept ↦ rw kept h
]

retry-HasUpload :
    (o : Option File) (s : FileService) (rt : FileRuntime)
    → HasUpload s.upload_state
    → HasUpload (retry_file o s rt).0.upload_state
unfolding retry_file
retry-HasUpload none s rt h = h
retry-HasUpload (some f) s rt h = begin-HasUpload (file f) none none s rt

delete-HasUpload :
    (id : String) (c : Option ClusterState) (s : FileService) (rt : FileRuntime)
    → HasUpload s.upload_state
    → HasUpload (begin_delete id c s rt).0.upload_state
unfolding begin_delete
delete-HasUpload id c s rt h = elim (Bool-cases (is_no_majority c)) [
  | inl paused ↦ rw paused h
  | inr running ↦ rw (running, remove-upload (find_file id s.files) s) h
]

perform-HasUpload :
    (c : Call) (s : FileService) (rt : FileRuntime)
    → HasUpload s.upload_state
    → HasUpload (perform c s rt).0.upload_state
unfolding perform begin_fetch fetch_files refresh_files set_search_query on_progress
    upload_succeeded upload_refreshed upload_failed set_upload_error retry_last_upload
    begin_download download_failed delete_succeeded delete_failed set_confirming_delete stop_polling
    subscribe unsubscribe
perform-HasUpload (Call.fetch_ends r) s rt h = rw (settle-upload r.outcome r.now s) h
perform-HasUpload (Call.upload_begins src n c) s rt h = begin-HasUpload src n c s rt
perform-HasUpload (Call.upload_progresses p l t) s rt h =
    apply-HasUpload _ s rt (progress_of-HasUpload p l t s.upload_state h) h
perform-HasUpload (Call.upload_succeeds src n) s rt h = inr (inr (refl, refl, refl, refl))
perform-HasUpload (Call.upload_refreshes r) s rt h = rw (settle-upload r.outcome r.now s) h
perform-HasUpload Call.upload_clears s rt h = clear-HasUpload s rt h
perform-HasUpload (Call.upload_fails src n e) s rt h = inr (inl (refl, refl, refl, refl))
perform-HasUpload (Call.upload_error_set n m) s rt h = inr (inl (refl, refl, refl, refl))
perform-HasUpload Call.upload_dismissed s rt h = dismiss-HasUpload s rt h
perform-HasUpload Call.upload_retried s rt h = retry-HasUpload (failed_file s.upload_state) s rt h
perform-HasUpload (Call.download_succeeds b i n r) s rt h =
    unfold download_succeeded in elim (Bool-cases b) [ inl on ↦ rw on h | inr off ↦ rw off h ]
perform-HasUpload Call.download_dismissed s rt h = unfold dismiss_download_error in ground arith
perform-HasUpload (Call.delete_begins id c) s rt h = delete-HasUpload id c s rt h
perform-HasUpload (Call.delete_fails id removed e) s rt h = rw (restore-upload removed s) h
perform-HasUpload Call.delete_dismissed s rt h = unfold dismiss_delete_error in ground arith
perform-HasUpload (Call.configured c) s rt h = rw (configure-upload c s) h
perform-HasUpload Call.cleared s rt h = unfold reset in tt
perform-HasUpload _ s rt h = h

perform_all-HasUpload :
    (cs : List Call) (s : FileService) (rt : FileRuntime)
    → HasUpload s.upload_state
    → HasUpload (perform_all cs s rt).0.upload_state
unfolding perform_all
perform_all-HasUpload [] s rt h = h
perform_all-HasUpload (c ∷ cs) s rt h = perform_all-HasUpload cs _ _ (perform-HasUpload c s rt h)

-- Whatever calls are made of a new service, and however their parts interleave and end, an upload card
-- is in one of three states: under way without an error, failed with its reason and nothing counted as
-- sent, or done with all bytes sent at 100 percent.
pub upload_card :
    (cs : List Call) (now : ℕ) (rt : FileRuntime)
    → HasUpload (perform_all cs (new now) rt).0.upload_state
unfolding new
upload_card cs now rt = perform_all-HasUpload cs (new now) rt tt
