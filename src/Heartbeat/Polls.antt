-- ===== src/Heartbeat/Polls.antt =====
-- Sequences of polls of the heartbeat service, and its pace under failures.
use distributed_file_storage.Prelude.{ℕ, String, Option, List, [], ◌∷◌, ◌≡◌, refl, ap, ◌∙◌}
use distributed_file_storage.Api.{NodesResponse, Outcome, resolved, rejected, Reply}
use distributed_file_storage.Backoff.Pace.{
  Pace, delay, follow, follow_all, failures_after, follow_all-delay,
}
use distributed_file_storage.Heartbeat.{
  HeartbeatService, settle, calculate_backoff_interval, next_delay,
}

-- What of the service decides its pace.
abbrev pub pace : HeartbeatService → Pace
pace s = record {
  base = s.base_interval_ms;
  most = s.max_interval_ms;
  factor = s.backoff_factor;
  failures = s.consecutive_failures;
  interval = s.last_result.current_interval_ms;
  reachable = s.last_result.reachable;
}

module _ (url_port : String → Option String) where
  -- A sequence of polls, with the replies to them.
  unfoldable pub poll_all : List (Reply NodesResponse) → HeartbeatService → HeartbeatService
  poll_all [] s = s
  poll_all (r ∷ rs) s = poll_all rs (settle url_port r.outcome r.latency r.now s)

  settle-pace :
      (o : Outcome NodesResponse) (latency now : ℕ) (s : HeartbeatService)
      → pace (settle url_port o latency now s) ≡ follow o (pace s)
  unfolding settle follow calculate_backoff_interval
  settle-pace (resolved response) latency now s = refl
  settle-pace (rejected err) latency now s = refl

  poll_all-pace :
      (rs : List (Reply NodesResponse)) (s : HeartbeatService)
      → pace (poll_all rs s) ≡ follow_all rs (pace s)
  unfolding poll_all follow_all
  poll_all-pace [] s = refl
  poll_all-pace (r ∷ rs) s =
      poll_all-pace rs (settle url_port r.outcome r.latency r.now s)
      ∙ ap (follow_all rs) (settle-pace r.outcome r.latency r.now s)

  -- After any sequence of one or more polls the next one waits as long as the backoff of the failures
  -- since the last success says, those before the sequence included; after a success that is the base
  -- interval.
  pub heartbeat_pace :
      (r : Reply NodesResponse) (rs : List (Reply NodesResponse)) (s : HeartbeatService)
      → next_delay (poll_all (r ∷ rs) s)
        ≡ calculate_backoff_interval s (failures_after (r ∷ rs) s.consecutive_failures)
  unfolding next_delay calculate_backoff_interval
  heartbeat_pace r rs s = ap delay (poll_all-pace (r ∷ rs) s) ∙ follow_all-delay r rs (pace s)
