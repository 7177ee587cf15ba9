-- ===== src/Tests/Ledgers.antt =====
-- Runs of the file service: the ledger, its search, uploads and deletions.
use distributed_file_storage.Prelude.{suc, ◌≡◌, refl, none, some, List, [], ◌∷◌, get_elem?}
use distributed_file_storage.Api.{resolved, healthy}
use distributed_file_storage.Tests.{idle, success, offline_error, two_files, report}
use distributed_file_storage.Files.{File, FileService, FileRuntime, new, settle}
use distributed_file_storage.Files.Upload.{file}
use distributed_file_storage.Files.Deletion as Deletion
use distributed_file_storage.Files.Deletion.{find_file, begin_delete, delete_failed}
use distributed_file_storage.Files.Deletion.Ledger.{IsLedger, perform_all-new-IsLedger}
use distributed_file_storage.Files.Deletion.Rollback.{delete_rollback, delete_rollback_duplicates}
use distributed_file_storage.Files.UploadLaws.{HasUpload, upload_card}
use distributed_file_storage.Files.Calls.{
  Call, fetch_ends, upload_begins, upload_progresses, upload_succeeds, delete_begins,
  delete_succeeds, perform_all,
}

abbrev quiet : FileRuntime
quiet = idle

-- A service that has polled once.
abbrev stocked : FileService
stocked = settle (resolved two_files) 10 (new 0)

stocked-IsLedger : IsLedger stocked
unfolding settle new
stocked-IsLedger = record { count = refl; bytes = refl }

abbrev picture : File
picture = record { name = "cat.png"; size = 900 }

-- A poll, and the deletion of a file.
abbrev deletion : List Call
deletion = fetch_ends (success two_files) ∷ delete_begins "f1" (some healthy) ∷ delete_succeeds ∷ []

perform_all-new-IsLedger_example : IsLedger (perform_all deletion (new 0) quiet).0
perform_all-new-IsLedger_example =
    perform_all-new-IsLedger deletion 0 quiet ((refl, refl), (tt, (tt, tt)))

delete_rollback_example :
    let removed = find_file "f1" stocked.files in
    let t =
      (delete_failed "f1" removed offline_error
        (begin_delete "f1" (some healthy) stocked quiet).0
        quiet).0 in
    ((begin_delete "f1" (some healthy) stocked quiet).2 ≡ Deletion.sent removed)
    × (t.files ≡ stocked.files)
    × (t.total_files ≡ stocked.total_files)
    × (t.total_size_bytes ≡ stocked.total_size_bytes)
delete_rollback_example =
    delete_rollback "f1" (some healthy) offline_error stocked quiet quiet refl stocked-IsLedger

-- A poll answers with the file while its deletion is under way.
delete_rollback_duplicates_example :
    let polled =
      settle (resolved two_files) 20 (begin_delete "f1" (some healthy) stocked quiet).0 in
    let t = (delete_failed "f1" (find_file "f1" stocked.files) offline_error polled quiet).0 in
    ((begin_delete "f1" (some healthy) stocked quiet).2 ≡ Deletion.sent (some (0, report)))
    × (get_elem? t.files 0 ≡ some report)
    × (get_elem? t.files 1 ≡ some report)
    × (t.total_files ≡ suc polled.total_files)
unfolding settle new find_file
delete_rollback_duplicates_example =
    delete_rollback_duplicates "f1" (some healthy) offline_error two_files stocked quiet quiet 20 0
      report refl refl refl

-- An upload with one report of its progress.
abbrev uploading : List Call
uploading =
    upload_begins (file picture) none (some healthy)
    ∷ upload_progresses 50 450 900
    ∷ upload_succeeds (file picture) "cat.png"
    ∷ []

upload_card_example : HasUpload (perform_all uploading (new 0) quiet).0.upload_state
upload_card_example = upload_card uploading 0 quiet
