-- ===== src/Files/Deletion/Rollback.antt =====
-- What the rollback of a failed deletion brings back, and what a poll in between changes.
use distributed_file_storage.Prelude.{
  ℕ, zero, suc, ◌≡◌, refl, ap, ◌∙◌, String, true, false, Option, none, some, List, [], ◌∷◌, arith,
  get_elem?, insert_idx, insert_idx-erase_idx, length-erase_idx, or_else,
}
use distributed_file_storage.Api.{
  FileInfo, FilesResponse, ClusterState, Thrown, resolved, is_no_majority, error,
}
use distributed_file_storage.Files.{FileService, FileRuntime, settle}
use distributed_file_storage.Files.Deletion.{
  Removed, refused, sent, paused_message, failed_state, find_file, remove_file, restore_file,
  begin_delete, delete_failed,
}
use distributed_file_storage.Files.Deletion.Ledger.{
  IsLedger, find_file-get_elem?, sum_sizes-erase_idx,
}

-- A state that has the ledger of another.
record HasLedgerOf (s t : FileService) : Type 0 where
  rows : t.files ≡ s.files
  count : t.total_files ≡ s.total_files
  bytes : t.total_size_bytes ≡ s.total_size_bytes

restore-remove :
    (id : String) (s t : FileService)
    → IsLedger s
    → HasLedgerOf (remove_file (find_file id s.files) s) t
    → HasLedgerOf s (restore_file (find_file id s.files) t)
unfolding restore_file remove_file
restore-remove id s t h = go (find_file id s.files) refl
  where
    go :
        (o : Removed)
        → find_file id s.files ≡ o
        → HasLedgerOf (remove_file o s) t
        → HasLedgerOf s (restore_file o t)
    go none e same = record { rows = same.rows; count = same.count; bytes = same.bytes }
    go (some (i, f)) e same =
        let at_index = find_file-get_elem? id s.files i f e in
        record {
          rows = rw same.rows (insert_idx-erase_idx s.files i f at_index);
          count = omega (arith, same.count, h.count, length-erase_idx s.files i at_index);
          bytes = omega (arith, same.bytes, h.bytes, sum_sizes-erase_idx s.files i f at_index);
        }

get_elem?-insert_idx :
    (fs : List FileInfo) (i : ℕ) (f : FileInfo)
    → get_elem? fs i ≡ some f
    → (get_elem? (insert_idx fs i f) i ≡ some f) × (get_elem? (insert_idx fs i f) (suc i) ≡ some f)
get_elem?-insert_idx [] i f h = cc
get_elem?-insert_idx (x ∷ fs) zero f h = (refl, h)
get_elem?-insert_idx (x ∷ fs) (suc i) f h = get_elem?-insert_idx fs i f h

restore_twice :
    (removed : Removed) (t : FileService) (i : ℕ) (f : FileInfo)
    → removed ≡ some (i, f)
    → get_elem? t.files i ≡ some f
    → let u = restore_file removed t in
      (get_elem? u.files i ≡ some f)
      × (get_elem? u.files (suc i) ≡ some f)
      × (u.total_files ≡ suc t.total_files)
unfolding restore_file
restore_twice none t i f e listed = cc
restore_twice (some (j, g)) t i f e listed =
    let same_index : j ≡ i = ground arith in
    let same_file : g ≡ f = ground arith in
    rw (same_index, same_file)
      (
        (get_elem?-insert_idx t.files i f listed).0,
        (get_elem?-insert_idx t.files i f listed).1,
        omega arith,
      )

-- Without a quorum majority the deletion is refused before anything is sent: the ledger is untouched,
-- the reason is shown, and the call throws.
pub delete_refused :
    (id : String) (c : Option ClusterState) (s : FileService) (rt : FileRuntime)
    → is_no_majority c ≡ true
    → let (t, _, begun) = begin_delete id c s rt in
      (t.files ≡ s.files)
      × (t.total_files ≡ s.total_files)
      × (t.total_size_bytes ≡ s.total_size_bytes)
      × (t.delete_state ≡ some (failed_state id paused_message))
      × (begun ≡ refused (error "Error" paused_message))
unfolding begin_delete
delete_refused id c s rt paused = rw paused (refl, refl, refl, refl, refl)

removed_ledger :
    (id : String) (c : Option ClusterState) (s : FileService) (rt : FileRuntime)
    → is_no_majority c ≡ false
    → HasLedgerOf (remove_file (find_file id s.files) s) (begin_delete id c s rt).0
unfolding begin_delete
removed_ledger id c s rt running = rw running (record { rows = refl; count = refl; bytes = refl })

sent_removed :
    (id : String) (c : Option ClusterState) (s : FileService) (rt : FileRuntime)
    → is_no_majority c ≡ false
    → (begin_delete id c s rt).2 ≡ sent (find_file id s.files)
unfolding begin_delete
sent_removed id c s rt running = rw running

-- A deletion that was sent and fails, with nothing in between, leaves the ledger as it was before: the
-- same rows in the same order, and the same totals, whether or not the file was found.
pub delete_rollback :
    (id : String) (c : Option ClusterState) (err : Thrown) (s : FileService) (rt rt' : FileRuntime)
    → is_no_majority c ≡ false
    → IsLedger s
    → let removed = find_file id s.files in
      let t = (delete_failed id removed err (begin_delete id c s rt).0 rt').0 in
      ((begin_delete id c s rt).2 ≡ sent removed)
      × (t.files ≡ s.files)
      × (t.total_files ≡ s.total_files)
      × (t.total_size_bytes ≡ s.total_size_bytes)
unfolding delete_failed
delete_rollback id c err s rt rt' running h =
    let same =
      restore-remove id s (begin_delete id c s rt).0 h (removed_ledger id c s rt running) in
    (sent_removed id c s rt running, same.rows, same.count, same.bytes)

-- A poll that answers between the optimistic removal and the failure, with the removed file unchanged and at
-- its old index, brings the row back itself; the rollback then adds it again: the row stands twice, at the old
-- index and behind it, and the total is one more than after the poll.
pub delete_rollback_duplicates :
    (id : String) (c : Option ClusterState) (err : Thrown) (response : FilesResponse)
    → (s : FileService) (rt rt' : FileRuntime) (now i : ℕ) (f : FileInfo) → is_no_majority c ≡ false
    → find_file id s.files ≡ some (i, f)
    → get_elem? (or_else response.files []) i ≡ some f
    → let polled = settle (resolved response) now (begin_delete id c s rt).0 in
      let t = (delete_failed id (find_file id s.files) err polled rt').0 in
      ((begin_delete id c s rt).2 ≡ sent (some (i, f)))
      × (get_elem? t.files i ≡ some f)
      × (get_elem? t.files (suc i) ≡ some f)
      × (t.total_files ≡ suc polled.total_files)
unfolding delete_failed settle
delete_rollback_duplicates id c err response s rt rt' now i f running found listed =
    let twice = restore_twice (find_file id s.files) _ i f found listed in
    (sent_removed id c s rt running ∙ ap sent found, twice.0, twice.1, twice.2)
