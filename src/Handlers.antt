-- ===== src/Handlers.antt =====
-- The listeners that frontend/src/main.ts puts on the panel of the files. A gesture of the user is an event
-- with the element that the listener finds; the elements themselves are in the page, and so is the file
-- input, whose value the listener clears.
pub mod Guard
use distributed_file_storage.Prelude.{
  ℕ, suc, ◌-◌, String, Bool, true, false, Option, none, some, List, [], ◌∷◌, ◌++◌, ◌==◌,
  if◌then◌else◌, truthy,
}
use distributed_file_storage.Api.{ClusterState, is_no_majority}
use distributed_file_storage.Files.{File, FileService, FileRuntime, refresh_files, set_search_query}
use distributed_file_storage.Files.Upload as Upload
use distributed_file_storage.Files.Upload.{
  Source, file, begin_upload, set_upload_error, dismiss_upload_error, retry_last_upload,
}
use distributed_file_storage.Files.Download.{begin_download, dismiss_download_error}
use distributed_file_storage.Files.Deletion as Deletion
use distributed_file_storage.Files.Deletion.{
  begin_delete, set_confirming_delete, dismiss_delete_error,
}

-- An identity is the `data-file-id` of a button, which is absent or empty where the button has none.
pub data Gesture : Type 0 where
  search : (query : String) → Gesture
  pick : List File → Gesture
  click_upload click_sync click_retry click_dismiss_upload click_dismiss_download
        click_dismiss_delete :
      Gesture
  click_download : (file_id : String) (filename : Option String) → Gesture
  click_delete : (file_id : String) → Gesture
  click_cancel : Gesture
  click_confirm : (file_id : String) → Gesture
  drag_enter drag_over : (has_files : Bool) → Gesture
  drag_leave : Gesture
  drop : List File → Gesture

-- The requests that a gesture begins.
pub data Request : Type 0 where
  upload : (name : String) → Request
  delete : (file_id : String) → Request
  download : (file_id : String) → Request
  ledger : Request

-- `picker_open` says that the file picker has been clicked open, and `requests` are those begun so far.
pub record Page : Type 0 where
  pub files : FileService
  pub runtime : FileRuntime
  pub drag_counter : ℕ
  pub drag_active : Bool
  pub picker_open : Bool
  pub requests : List Request

abbrev pub with_service : FileService × FileRuntime → Page → Page
with_service (s, rt) p = record p { files = s; runtime = rt }

abbrev sending : List Request → Page → Page
sending rs p = record p { requests = p.requests ++ rs }

abbrev upload_request : Upload.Begun → List Request
upload_request (Upload.refused _) = []
upload_request (Upload.sent name) = upload name ∷ []

abbrev retry_request : Option Upload.Begun → List Request
retry_request none = []
retry_request (some b) = upload_request b

abbrev delete_request : String → Deletion.Begun → List Request
delete_request id (Deletion.refused _) = []
delete_request id (Deletion.sent _) = delete id ∷ []

abbrev upload_paused_message : String
upload_paused_message =
    "Upload paused: Cluster consensus is paused (quorum majority lost). File cannot be replicated safely until peer nodes reconnect."

abbrev selection_paused_message : String
selection_paused_message =
    "Uploads paused: Cluster consensus is paused (quorum majority lost). Mutations cannot commit safely until peer nodes reconnect."

-- The part that the picker and the drop share.
abbrev pub upload_first : Option ClusterState → List File → Page → Page
upload_first cluster [] p = p
upload_first cluster (f ∷ fs) p =
    let refused =
      with_service (set_upload_error f.name upload_paused_message p.files p.runtime) p in
    let (s, rt, begun) = begin_upload (file f) none cluster p.files p.runtime in
    if is_no_majority cluster
    then refused
    else sending (upload_request begun) (with_service (s, rt) p)

unfoldable pub on_input : String → Page → Page
on_input query p = with_service (set_search_query query p.files p.runtime) p

unfoldable pub on_change : Option ClusterState → List File → Page → Page
on_change cluster fs p = upload_first cluster fs p

unfoldable pub on_click_upload : Option ClusterState → Page → Page
on_click_upload cluster p =
    if is_no_majority cluster
    then with_service
        (set_upload_error "Upload Selection" selection_paused_message p.files p.runtime) p
    else record p { picker_open = true }

unfoldable pub on_click_sync : Page → Page
on_click_sync p = sending (ledger ∷ []) (with_service (refresh_files p.files p.runtime) p)

unfoldable pub on_click_retry : Page → Page
on_click_retry p =
    let (s, rt, begun) = retry_last_upload p.files p.runtime in
    sending (retry_request begun) (with_service (s, rt) p)

unfoldable pub on_click_download : String → Option String → Page → Page
on_click_download id filename p =
    if truthy id
    then sending (download id ∷ []) (with_service (begin_download id filename p.files p.runtime) p)
    else p

unfoldable pub on_click_delete : String → Page → Page
on_click_delete id p =
    if truthy id then with_service (set_confirming_delete (some id) p.files p.runtime) p else p

unfoldable pub on_click_confirm : Option ClusterState → String → Page → Page
on_click_confirm cluster id p =
    let (s, rt, begun) = begin_delete id cluster p.files p.runtime in
    if truthy id then sending (delete_request id begun) (with_service (s, rt) p) else p

unfoldable pub on_drag_enter : Bool → Page → Page
on_drag_enter has_files p =
    if has_files then record p { drag_counter = suc p.drag_counter; drag_active = true } else p

unfoldable pub on_drag_over : Bool → Page → Page
on_drag_over has_files p = if has_files then record p { drag_active = true } else p

-- `Math.max(0, dragCounter - 1)` is the subtraction of the naturals.
unfoldable pub on_drag_leave : Page → Page
on_drag_leave p =
    let left = p.drag_counter - 1 in
    record p { drag_counter = left; drag_active = if left == 0 then false else p.drag_active }

unfoldable pub on_drop : Option ClusterState → List File → Page → Page
on_drop cluster fs p = upload_first cluster fs (record p { drag_active = false; drag_counter = 0 })

-- `cluster` is the cluster state of the last result of the cluster service.
abbrev pub handle : Option ClusterState → Gesture → Page → Page
handle c (search q) p = on_input q p
handle c (pick fs) p = on_change c fs p
handle c click_upload p = on_click_upload c p
handle c click_sync p = on_click_sync p
handle c click_retry p = on_click_retry p
handle c click_dismiss_upload p = with_service (dismiss_upload_error p.files p.runtime) p
handle c click_dismiss_download p = with_service (dismiss_download_error p.files p.runtime) p
handle c click_dismiss_delete p = with_service (dismiss_delete_error p.files p.runtime) p
handle c (click_download id name) p = on_click_download id name p
handle c (click_delete id) p = on_click_delete id p
handle c click_cancel p = with_service (set_confirming_delete none p.files p.runtime) p
handle c (click_confirm id) p = on_click_confirm c id p
handle c (drag_enter has_files) p = on_drag_enter has_files p
handle c (drag_over has_files) p = on_drag_over has_files p
handle c drag_leave p = on_drag_leave p
handle c (drop fs) p = on_drop c fs p

abbrev pub handle_all : Option ClusterState → List Gesture → Page → Page
handle_all c [] p = p
handle_all c (g ∷ gs) p = handle_all c gs (handle c g p)
