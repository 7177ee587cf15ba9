-- ===== src/Files/Deletion.antt =====
-- `deleteFile` of fileService.ts: the row goes at once and comes back if the deletion fails.
pub mod Ledger
pub mod Rollback
use distributed_file_storage.Prelude.{
  ℕ, suc, ◌+◌, ◌-◌, String, str_eq, Bool, true, false, ◌||◌, Option, none, some, List,
  if◌then◌else◌, truthy?, find_index, get_elem?, erase_idx, insert_idx,
}
use distributed_file_storage.Api.{ClusterState, FileInfo, Thrown, error, is_no_majority}
use distributed_file_storage.Files.Messages.{delete_message}
use distributed_file_storage.Files.{DeleteState, FileService, FileRuntime, notify, refresh_files}

-- `this.deleteState = state; this.notifyListeners(this.getResult())`
abbrev set_delete : Option DeleteState → FileService → FileRuntime → FileService × FileRuntime
set_delete state s rt = let s' = record s { delete_state = state } in (s', notify s' rt)

abbrev pub paused_message : String
paused_message =
    "Deletion paused: Consensus is paused (quorum majority lost). Cannot commit file deletion safely without majority quorum."

abbrev pub failed_state : String → String → DeleteState
failed_state file_id message = record {
  confirming_file_id = none;
  is_deleting = false;
  file_id = some file_id;
  error = some message;
}

-- What `deleteFile` keeps across its `await`: `fileIndex` and `fileToRestore`, `none` for -1 and null.
abbrev pub Removed : Type 0
Removed = Option (ℕ × FileInfo)

pub data Begun : Type 0 where
  refused : Thrown → Begun
  sent : Removed → Begun

abbrev names : String → FileInfo → Bool
names file_id f = str_eq f.file_id file_id || str_eq f.name file_id

abbrev with_file : List FileInfo → Option ℕ → Removed
with_file files none = none
with_file files (some i) = elim (get_elem? files i) [ none ↦ none | some f ↦ some (i, f) ]

-- The file that `findIndex` finds by identity or name, with its index.
unfoldable pub find_file : String → List FileInfo → Removed
find_file file_id files = with_file files (find_index (names file_id) files)

-- The optimistic removal. The subtraction of the totals stops at zero, as `Math.max(0, …)` does.
unfoldable pub remove_file : Removed → FileService → FileService
remove_file none s = s
remove_file (some (i, f)) s = record s {
  files = erase_idx s.files i;
  total_files = s.total_files - 1;
  total_size_bytes = s.total_size_bytes - f.size;
}

-- `deleteFile` up to the `await` of the API.
unfoldable pub begin_delete :
    String → Option ClusterState → FileService → FileRuntime → FileService × FileRuntime × Begun
begin_delete file_id cluster s rt =
    let removed = find_file file_id s.files in
    let deleting : DeleteState = record {
      confirming_file_id = none;
      is_deleting = true;
      file_id = some file_id;
      error = none;
    } in
    let (s₁, rt₁) = set_delete (some (failed_state file_id paused_message)) s rt in
    let (s₂, rt₂) = set_delete (some deleting) (remove_file removed s) rt in
    if is_no_majority cluster
    then (s₁, rt₁, refused (error "Error" paused_message))
    else (s₂, rt₂, sent removed)

-- `deleteFile` after the API's response; the refresh is not waited for.
unfoldable pub delete_succeeded : FileService → FileRuntime → FileService × FileRuntime
delete_succeeded s rt = let (s', rt') = set_delete none s rt in refresh_files s' rt'

-- The rollback: the row goes back to its old index in the list as it is by then.
unfoldable pub restore_file : Removed → FileService → FileService
restore_file none s = s
restore_file (some (i, f)) s = record s {
  files = insert_idx s.files i f;
  total_files = s.total_files + 1;
  total_size_bytes = s.total_size_bytes + f.size;
}

-- The `catch` branch, which throws the error on.
unfoldable pub delete_failed :
    String → Removed → Thrown → FileService → FileRuntime → FileService × FileRuntime × Thrown
delete_failed file_id removed err s rt =
    let (s', rt') =
      set_delete (some (failed_state file_id (delete_message file_id err))) (restore_file removed s)
        rt in
    (s', rt', err)

abbrev confirming : Option String → Option DeleteState
confirming none = none
confirming (some id) =
    if truthy? (some id)
    then some
        (record { confirming_file_id = some id; is_deleting = false; file_id = none; error = none })
    else none

unfoldable pub set_confirming_delete :
    Option String → FileService → FileRuntime → FileService × FileRuntime
set_confirming_delete file_id = set_delete (confirming file_id)

abbrev pub delete_error : Option DeleteState → Option String
delete_error none = none
delete_error (some d) = d.error

unfoldable pub dismiss_delete_error : FileService → FileRuntime → FileService × FileRuntime
dismiss_delete_error s rt =
    if truthy? (delete_error s.delete_state) then set_delete none s rt else (s, rt)
