-- ===== src/Files/Pace.antt =====
-- The pace of the ledger's polling under failures.
use distributed_file_storage.Prelude.{ℕ, List, [], ◌∷◌, ◌≡◌, refl, ap, ◌∙◌}
use distributed_file_storage.Api.{FilesResponse, Outcome, resolved, rejected, Reply}
use distributed_file_storage.Backoff.Pace.{
  Pace, delay, follow, follow_all, failures_after, follow_all-delay,
}
use distributed_file_storage.Files.{FileService, settle, calculate_backoff_interval, next_delay}

-- What of the service decides its pace.
abbrev pub pace : FileService → Pace
pace s = record {
  base = s.base_interval_ms;
  most = s.max_interval_ms;
  factor = s.backoff_factor;
  failures = s.consecutive_failures;
  interval = s.current_interval_ms;
  reachable = s.reachable;
}

-- A sequence of fetches, with the replies to them.
unfoldable pub fetch_all : List (Reply FilesResponse) → FileService → FileService
fetch_all [] s = s
fetch_all (r ∷ rs) s = fetch_all rs (settle r.outcome r.now s)

settle-pace :
    (o : Outcome FilesResponse) (now : ℕ) (s : FileService)
    → pace (settle o now s) ≡ follow o (pace s)
unfolding settle follow calculate_backoff_interval
settle-pace (resolved response) now s = refl
settle-pace (rejected err) now s = refl

fetch_all-pace :
    (rs : List (Reply FilesResponse)) (s : FileService)
    → pace (fetch_all rs s) ≡ follow_all rs (pace s)
unfolding fetch_all follow_all
fetch_all-pace [] s = refl
fetch_all-pace (r ∷ rs) s =
    fetch_all-pace rs (settle r.outcome r.now s)
    ∙ ap (follow_all rs) (settle-pace r.outcome r.now s)

-- After any sequence of one or more fetches the next one waits as long as the backoff of the failures
-- since the last success says, those before the sequence included; after a success that is the base
-- interval.
pub files_pace :
    (r : Reply FilesResponse) (rs : List (Reply FilesResponse)) (s : FileService)
    → next_delay (fetch_all (r ∷ rs) s)
      ≡ calculate_backoff_interval s (failures_after (r ∷ rs) s.consecutive_failures)
unfolding next_delay calculate_backoff_interval
files_pace r rs s = ap delay (fetch_all-pace (r ∷ rs) s) ∙ follow_all-delay r rs (pace s)
