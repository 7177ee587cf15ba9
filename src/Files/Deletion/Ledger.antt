-- ===== src/Files/Deletion/Ledger.antt =====
-- The totals of the ledger agree with its rows.
use distributed_file_storage.Prelude.{
  ℕ, suc, ◌+◌, ◌≡◌, refl, zero, String, Option, none, some, List, [], ◌∷◌, arith, length, All,
  get_elem?, erase_idx, insert_idx, find_index, length-erase_idx, length-insert_idx, or_else,
  Bool-cases, inl, inr,
}
use distributed_file_storage.Api.{
  FileInfo, FilesResponse, ClusterState, Outcome, resolved, rejected, PollingArgument, number,
  config, is_no_majority,
}
use distributed_file_storage.Files.{
  FileService, FileRuntime, FilePollingConfig, new, sum_sizes, settle, begin_fetch, fetch_files,
  refresh_files, set_search_query, configure, stop_polling, subscribe, unsubscribe, reset,
}
use distributed_file_storage.Files.Upload.{
  begin_upload, on_progress, upload_succeeded, upload_refreshed, clear_upload, upload_failed,
  set_upload_error, dismiss_upload_error, retry_last_upload,
}
use distributed_file_storage.Files.Download.{
  begin_download, download_succeeded, download_failed, dismiss_download_error,
}
use distributed_file_storage.Files.Deletion.{
  Removed, find_file, remove_file, restore_file, begin_delete, delete_succeeded, delete_failed,
  set_confirming_delete, dismiss_delete_error, names, with_file,
}
use distributed_file_storage.Files.Calls.{Call, fetch_ends, upload_refreshes, perform, perform_all}

pub sum_sizes-erase_idx :
    (fs : List FileInfo) (i : ℕ) (f : FileInfo)
    → get_elem? fs i ≡ some f
    → sum_sizes fs ≡ f.size + sum_sizes (erase_idx fs i)
unfolding sum_sizes
sum_sizes-erase_idx [] i f h = cc
sum_sizes-erase_idx (x ∷ fs) zero f h = ground arith
sum_sizes-erase_idx (x ∷ fs) (suc i) f h = omega (arith, sum_sizes-erase_idx fs i f h)

pub sum_sizes-insert_idx :
    (fs : List FileInfo) (i : ℕ) (f : FileInfo)
    → sum_sizes (insert_idx fs i f) ≡ f.size + sum_sizes fs
unfolding sum_sizes
sum_sizes-insert_idx [] zero f = refl
sum_sizes-insert_idx [] (suc i) f = refl
sum_sizes-insert_idx (x ∷ fs) zero f = refl
sum_sizes-insert_idx (x ∷ fs) (suc i) f = omega (arith, sum_sizes-insert_idx fs i f)

pub record IsLedger (s : FileService) : Type 0 where
  pub count : s.total_files ≡ length s.files
  pub bytes : s.total_size_bytes ≡ sum_sizes s.files

-- What `find_file` finds stands in the list at its index.
pub find_file-get_elem? :
    (id : String) (fs : List FileInfo) (i : ℕ) (f : FileInfo)
    → find_file id fs ≡ some (i, f)
    → get_elem? fs i ≡ some f
unfolding find_file
find_file-get_elem? id fs i f h = go (find_index (names id) fs) h
  where
    go : (o : Option ℕ) → with_file fs o ≡ some (i, f) → get_elem? fs i ≡ some f
    go none e = cc
    go (some j) e = ground arith

remove-IsLedger :
    (id : String) (s : FileService) → IsLedger s → IsLedger (remove_file (find_file id s.files) s)
unfolding remove_file
remove-IsLedger id s h = go (find_file id s.files) refl
  where
    go : (o : Removed) → find_file id s.files ≡ o → IsLedger (remove_file o s)
    go none e = h
    go (some (i, f)) e =
        let at_index = find_file-get_elem? id s.files i f e in
        record {
          count = omega (arith, h.count, length-erase_idx s.files i at_index);
          bytes = omega (arith, h.bytes, sum_sizes-erase_idx s.files i f at_index);
        }

restore-IsLedger :
    (removed : Removed) (s : FileService) → IsLedger s → IsLedger (restore_file removed s)
unfolding restore_file
restore-IsLedger none s h = h
restore-IsLedger (some (i, f)) s h = record {
  count = omega (arith, h.count, length-insert_idx s.files i f);
  bytes = omega (arith, h.bytes, sum_sizes-insert_idx s.files i f);
}

-- A response whose totals, where it has them, are those of its rows.
abbrev pub IsExact : Outcome FilesResponse → Type 0
IsExact (rejected e) = Unit
IsExact (resolved r) =
    let fs = or_else r.files [] in
    (or_else r.total_files (length fs) ≡ length fs)
    × (or_else r.total_size_bytes (sum_sizes fs) ≡ sum_sizes fs)

pub settle-IsLedger :
    (o : Outcome FilesResponse) (now : ℕ) (s : FileService)
    → IsExact o
    → IsLedger s
    → IsLedger (settle o now s)
unfolding settle
settle-IsLedger (resolved r) now s (c, b) h = record { count = c; bytes = b }
settle-IsLedger (rejected e) now s exact h = record { count = h.count; bytes = h.bytes }

abbrev pub IsExactCall : Call → Type 0
IsExactCall (fetch_ends reply) = IsExact reply.outcome
IsExactCall (upload_refreshes reply) = IsExact reply.outcome
IsExactCall _ = Unit

delete-IsLedger :
    (id : String) (c : Option ClusterState) (s : FileService) (rt : FileRuntime)
    → IsLedger s
    → IsLedger (begin_delete id c s rt).0
unfolding begin_delete
delete-IsLedger id c s rt h = elim (Bool-cases (is_no_majority c)) [
  | inl paused ↦ rw paused (record { count = h.count; bytes = h.bytes })
  | inr running ↦
      let t = remove_file (find_file id s.files) s in
      let removed = remove-IsLedger id s h in
      rw running (record { count = removed.count; bytes = removed.bytes })
]

configure-IsLedger :
    (c : PollingArgument FilePollingConfig) (s : FileService)
    → IsLedger s
    → IsLedger (configure c s)
unfolding configure
configure-IsLedger (number n) s h = record { count = h.count; bytes = h.bytes }
configure-IsLedger (config c) s h = record { count = h.count; bytes = h.bytes }

perform-IsLedger :
    (c : Call) (s : FileService) (rt : FileRuntime)
    → IsExactCall c
    → IsLedger s
    → IsLedger (perform c s rt).0
unfolding perform begin_fetch fetch_files refresh_files set_search_query begin_upload on_progress
    upload_succeeded upload_refreshed clear_upload upload_failed set_upload_error
    dismiss_upload_error retry_last_upload begin_download download_succeeded download_failed
    dismiss_download_error delete_succeeded set_confirming_delete dismiss_delete_error stop_polling
    subscribe unsubscribe
perform-IsLedger (fetch_ends reply) s rt x h = settle-IsLedger reply.outcome reply.now s x h
perform-IsLedger (upload_refreshes reply) s rt x h = settle-IsLedger reply.outcome reply.now s x h
perform-IsLedger (Call.delete_begins id c) s rt x h = delete-IsLedger id c s rt h
perform-IsLedger (Call.delete_fails id removed err) s rt x h =
    unfold delete_failed in
    let restored = restore-IsLedger removed s h in
    record { count = restored.count; bytes = restored.bytes }
perform-IsLedger (Call.configured c) s rt x h = configure-IsLedger c s h
perform-IsLedger Call.cleared s rt x h =
    unfold reset sum_sizes in record { count = refl; bytes = refl }
perform-IsLedger _ s rt x h = ground arith

perform_all-IsLedger :
    (cs : List Call) (s : FileService) (rt : FileRuntime)
    → All IsExactCall cs
    → IsLedger s
    → IsLedger (perform_all cs s rt).0
unfolding perform_all
perform_all-IsLedger [] s rt x h = h
perform_all-IsLedger (c ∷ cs) s rt (x, xs) h =
    perform_all-IsLedger cs _ _ xs (perform-IsLedger c s rt x h)

-- Whatever calls are made of a new service, in whatever order their parts interleave, and however they
-- end: as long as each response that gives totals gives those of its own rows, the totals shown are
-- the number and the summed sizes of the rows in the ledger, through optimistic removals and rollbacks.
pub perform_all-new-IsLedger :
    (cs : List Call) (now : ℕ) (rt : FileRuntime)
    → All IsExactCall cs
    → IsLedger (perform_all cs (new now) rt).0
unfolding new sum_sizes
perform_all-new-IsLedger cs now rt exact =
    perform_all-IsLedger cs _ rt exact (record { count = refl; bytes = refl })
