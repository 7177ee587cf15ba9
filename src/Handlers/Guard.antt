-- ===== src/Handlers/Guard.antt =====
-- Without a majority the gestures of a user change nothing in the cluster.
use mathlib.Core.List.{append_assoc, append-nil}
use distributed_file_storage.Prelude.{
  ◌≡◌, refl, sym, ap, ◌∙◌, Bool, true, false, some, List, [], ◌∷◌, ◌++◌, All, All-append, truthy,
  if◌then◌else◌,
}
use distributed_file_storage.Api.{no_majority}
use distributed_file_storage.Files.{File, FileService, FileRuntime, refresh_files, set_search_query}
use distributed_file_storage.Files.Upload.{begin_upload, set_upload_error, dismiss_upload_error}
use distributed_file_storage.Files.Download.{begin_download, dismiss_download_error}
use distributed_file_storage.Files.Deletion.{
  begin_delete, set_confirming_delete, dismiss_delete_error,
}
use distributed_file_storage.Handlers.{
  Gesture, search, pick, click_upload, click_sync, click_retry, click_dismiss_upload,
  click_dismiss_download, click_dismiss_delete, click_download, click_delete, click_cancel,
  click_confirm, drag_enter, drag_over, drag_leave, drop, Request, upload, delete, download, ledger,
  Page, handle, handle_all, on_input, on_change, on_click_upload, on_click_sync, on_click_download,
  on_click_delete, on_click_confirm, on_drag_enter, on_drag_over, on_drag_leave, on_drop,
  upload_first, with_service,
}

-- A request that only reads.
abbrev pub IsRead : Request → Type 0
IsRead (upload _) = ⊥
IsRead (delete _) = ⊥
IsRead _ = Unit

-- Every gesture but the retry of an upload.
abbrev pub IsGuarded : Gesture → Type 0
IsGuarded click_retry = ⊥
IsGuarded _ = Unit

-- The ledger is as it was, and the requests that have been added only read.
abbrev pub OnlyReads : Page → Page → Type 0
OnlyReads p after =
    (after.files.files ≡ p.files.files)
    × (after.files.total_files ≡ p.files.total_files)
    × (after.files.total_size_bytes ≡ p.files.total_size_bytes)
    × (rs : List Request) × (after.requests ≡ p.requests ++ rs)
    × All IsRead rs

OnlyReads-if :
    (b : Bool) (p x y : Page) → OnlyReads p x → OnlyReads p y → OnlyReads p (if b then x else y)
OnlyReads-if true p x y h k = h
OnlyReads-if false p x y h k = k

OnlyReads-refl : (p : Page) → OnlyReads p p
OnlyReads-refl p = (refl, refl, refl, [], sym (append-nil _), tt)

service_if-OnlyReads :
    (b : Bool) (p : Page) (x y : FileService × FileRuntime)
    → OnlyReads p (with_service x p)
    → OnlyReads p (with_service y p)
    → OnlyReads p (with_service (if b then x else y) p)
service_if-OnlyReads true p x y h k = h
service_if-OnlyReads false p x y h k = k

OnlyReads-trans : (p q r : Page) → OnlyReads p q → OnlyReads q r → OnlyReads p r
OnlyReads-trans p q r (f, n, b, rs, e, h) (f', n', b', rs', e', h') = (
  f' ∙ f,
  n' ∙ n,
  b' ∙ b,
  rs ++ rs',
  e' ∙ ap (λ x. x ++ rs') e ∙ append_assoc p.requests rs rs',
  All-append IsRead rs rs' h h',
)

upload_first-OnlyReads :
    (fs : List File) (p : Page) → OnlyReads p (upload_first (some no_majority) fs p)
unfolding set_upload_error begin_upload
upload_first-OnlyReads [] p = OnlyReads-refl p
upload_first-OnlyReads (f ∷ fs) p = OnlyReads-refl p

handle-OnlyReads :
    (g : Gesture) (p : Page) → IsGuarded g → OnlyReads p (handle (some no_majority) g p)
unfolding on_input on_change on_click_upload on_click_sync on_click_download on_click_delete
    on_click_confirm on_drag_enter on_drag_over on_drag_leave on_drop refresh_files set_search_query
    begin_upload set_upload_error dismiss_upload_error begin_download dismiss_download_error
    begin_delete set_confirming_delete dismiss_delete_error
handle-OnlyReads (search q) p guarded = OnlyReads-refl p
handle-OnlyReads (pick fs) p guarded = upload_first-OnlyReads fs p
handle-OnlyReads click_upload p guarded = OnlyReads-refl p
handle-OnlyReads click_sync p guarded = (refl, refl, refl, ledger ∷ [], refl, (tt, tt))
handle-OnlyReads click_retry p guarded = absurd guarded
handle-OnlyReads click_dismiss_upload p guarded =
    service_if-OnlyReads _ p _ (p.files, p.runtime) (OnlyReads-refl p) (OnlyReads-refl p)
handle-OnlyReads click_dismiss_download p guarded =
    service_if-OnlyReads _ p _ (p.files, p.runtime) (OnlyReads-refl p) (OnlyReads-refl p)
handle-OnlyReads click_dismiss_delete p guarded =
    service_if-OnlyReads _ p _ (p.files, p.runtime) (OnlyReads-refl p) (OnlyReads-refl p)
handle-OnlyReads (click_download id name) p guarded =
    OnlyReads-if (truthy id) p _ p (refl, refl, refl, download id ∷ [], refl, (tt, tt))
      (OnlyReads-refl p)
handle-OnlyReads (click_delete id) p guarded =
    OnlyReads-if (truthy id) p _ p (OnlyReads-refl p) (OnlyReads-refl p)
handle-OnlyReads click_cancel p guarded = OnlyReads-refl p
handle-OnlyReads (click_confirm id) p guarded =
    OnlyReads-if (truthy id) p _ p (refl, refl, refl, [], refl, tt) (OnlyReads-refl p)
handle-OnlyReads (drag_enter b) p guarded =
    OnlyReads-if b p _ p (OnlyReads-refl p) (OnlyReads-refl p)
handle-OnlyReads (drag_over b) p guarded =
    OnlyReads-if b p _ p (OnlyReads-refl p) (OnlyReads-refl p)
handle-OnlyReads drag_leave p guarded = OnlyReads-refl p
handle-OnlyReads (drop fs) p guarded =
    upload_first-OnlyReads fs (record p { drag_active = false; drag_counter = 0 })

-- While the cluster has no majority, no sequence of gestures without a retry uploads or deletes anything:
-- the rows and the totals of the ledger stay as they are, and every request that is begun only reads.
pub handle_all-OnlyReads :
    (gs : List Gesture) (p : Page)
    → All IsGuarded gs
    → OnlyReads p (handle_all (some no_majority) gs p)
handle_all-OnlyReads [] p guarded = OnlyReads-refl p
handle_all-OnlyReads (g ∷ gs) p (first, rest) =
    let next = handle (some no_majority) g p in
    OnlyReads-trans p next (handle_all (some no_majority) gs next) (handle-OnlyReads g p first)
      (handle_all-OnlyReads gs next rest)
