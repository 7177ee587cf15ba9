-- ===== src/Tests/Backoffs.antt =====
-- Runs of the back-off computation and of the listeners.
use distributed_file_storage.Prelude.{ℕ, ◌≡◌, refl, [], ◌∷◌, map}
use distributed_file_storage.Tests.{idle}
use distributed_file_storage.Backoff.{
  default_factor, backoff_interval, exponential_delay, round_div,
}
use distributed_file_storage.Runtime.{Runtime}
use distributed_file_storage.Runtime.Listeners.{notify_listeners}
use distributed_file_storage.Runtime.Listeners.Laws.{notify_listeners_reaches_all}

growth_test :
    map (backoff_interval 3000 15000 default_factor) (0 ∷ 1 ∷ 2 ∷ 3 ∷ 4 ∷ [])
    ≡ 3000 ∷ 4500 ∷ 6750 ∷ 10125 ∷ 15000 ∷ []
unfolding backoff_interval exponential_delay round_div
growth_test = refl

abbrev start : Runtime ℕ
start = idle

notify_listeners_reaches_all_example :
    let after = notify_listeners (1 ∷ 2 ∷ 3 ∷ []) 50 start in
    (after.delivered ≡ (1, 50) ∷ (2, 50) ∷ (3, 50) ∷ [])
    × (after.console_errors ≡ 2 ∷ [])
    × (after.timers ≡ [])
notify_listeners_reaches_all_example = notify_listeners_reaches_all (1 ∷ 2 ∷ 3 ∷ []) 50 start
