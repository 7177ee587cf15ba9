-- ===== src/Health/Laws.antt =====
-- Properties of the health service: the honesty of its result, and its pace under failures.
use distributed_file_storage.Prelude.{
  ℕ, ◌≤◌, ◌<◌, ◌≡◌, refl, ap, ◌∙◌, ◌≢◌, ◌⊎◌, inl, inr, true, false, none, List, [], ◌∷◌, arith,
  is_some,
}
use distributed_file_storage.Api.{
  HealthResponse, Outcome, resolved, rejected, Reply, PollingArgument, number, config,
}
use distributed_file_storage.Backoff.Pace.{
  Pace, delay, follow, follow_all, failures_after, follow_all-delay,
}
use distributed_file_storage.Health.{
  HealthService, HealthRuntime, HealthCheckResult, HealthPollingConfig, connected, degraded, new,
  calculate_backoff_interval, settle, check_health, retry, configure, stop_polling, subscribe,
  unsubscribe, reset, next_delay,
}

-- A call of a method of the service, with what the environment answers.
pub data Call : Type 0 where
  checked : Reply HealthResponse → Call
  retried : Call
  configured : PollingArgument HealthPollingConfig → Call
  stopped : Call
  subscribed unsubscribed : ℕ → Call
  cleared : ℕ → Call

unfoldable pub perform : Call → HealthService → HealthRuntime → HealthService × HealthRuntime
perform (checked reply) s rt = check_health reply s rt
perform retried s rt = (retry s, rt)
perform (configured c) s rt = (configure c s, rt)
perform stopped s rt = stop_polling s rt
perform (subscribed l) s rt = ((subscribe l s rt).0, (subscribe l s rt).1)
perform (unsubscribed l) s rt = (unsubscribe l s, rt)
perform (cleared now) s rt = reset now s rt

unfoldable pub perform_all :
    List Call → HealthService → HealthRuntime → HealthService × HealthRuntime
perform_all [] s rt = (s, rt)
perform_all (c ∷ cs) s rt = let (s', rt') = perform c s rt in perform_all cs s' rt'

-- A reachable backend comes with its response, no error and no failures; an unreachable one comes
-- with no response, and its status is not that of a connection.
abbrev pub IsHonest : HealthCheckResult → Type 0
IsHonest r =
    (r.reachable ≡ true)
      × (is_some r.response ≡ true)
      × (r.error ≡ none)
      × (r.consecutive_failures ≡ 0)
      × ((r.status ≡ connected) × (r.latency_ms ≤ 1000)
          ⊎ (r.status ≡ degraded) × (1000 < r.latency_ms))
    ⊎ (r.reachable ≡ false) × (r.response ≡ none) × (r.status ≢ connected) × (r.status ≢ degraded)

settle-IsHonest :
    (o : Outcome HealthResponse) (latency now : ℕ) (s : HealthService)
    → IsHonest (settle o latency now s).last_result
unfolding settle
settle-IsHonest (resolved response) latency now s = inl (refl, refl, refl, refl, ground arith)
settle-IsHonest (rejected err) latency now s = inr (refl, refl, (λ e. cc), (λ e. cc))

configure-result :
    (c : PollingArgument HealthPollingConfig) (s : HealthService)
    → (configure c s).last_result ≡ s.last_result
unfolding configure
configure-result (number n) s = refl
configure-result (config c) s = refl

perform-IsHonest :
    (c : Call) (s : HealthService) (rt : HealthRuntime)
    → IsHonest s.last_result
    → IsHonest (perform c s rt).0.last_result
unfolding perform check_health retry stop_polling subscribe unsubscribe reset
perform-IsHonest (checked reply) s rt h = settle-IsHonest reply.outcome reply.latency reply.now s
perform-IsHonest retried s rt h = h
perform-IsHonest (configured c) s rt h = rw (configure-result c s) h
perform-IsHonest stopped s rt h = h
perform-IsHonest (subscribed l) s rt h = h
perform-IsHonest (unsubscribed l) s rt h = h
perform-IsHonest (cleared now) s rt h = inr (refl, refl, (λ e. cc), (λ e. cc))

perform_all-IsHonest :
    (cs : List Call) (s : HealthService) (rt : HealthRuntime)
    → IsHonest s.last_result
    → IsHonest (perform_all cs s rt).0.last_result
unfolding perform_all
perform_all-IsHonest [] s rt h = h
perform_all-IsHonest (c ∷ cs) s rt h = perform_all-IsHonest cs _ _ (perform-IsHonest c s rt h)

-- Whatever calls are made of a new service, and however its checks end, its result is honest: a
-- reachable backend comes with its response, no error, no failures, and a status that says whether
-- the latency passed a second; an unreachable one comes with no response and no connected status.
pub health_result-IsHonest :
    (cs : List Call) (now : ℕ) (rt : HealthRuntime)
    → IsHonest (perform_all cs (new now) rt).0.last_result
unfolding new
health_result-IsHonest cs now rt =
    perform_all-IsHonest cs _ rt (inr (refl, refl, (λ e. cc), (λ e. cc)))

-- What of the service decides its pace.
abbrev pub pace : HealthService → Pace
pace s = record {
  base = s.base_interval_ms;
  most = s.max_interval_ms;
  factor = s.backoff_factor;
  failures = s.consecutive_failures;
  interval = s.last_result.current_interval_ms;
  reachable = s.last_result.reachable;
}

-- A sequence of checks, with the replies to them.
unfoldable pub check_all : List (Reply HealthResponse) → HealthService → HealthService
check_all [] s = s
check_all (r ∷ rs) s = check_all rs (settle r.outcome r.latency r.now s)

settle-pace :
    (o : Outcome HealthResponse) (latency now : ℕ) (s : HealthService)
    → pace (settle o latency now s) ≡ follow o (pace s)
unfolding settle follow calculate_backoff_interval
settle-pace (resolved response) latency now s = refl
settle-pace (rejected err) latency now s = refl

check_all-pace :
    (rs : List (Reply HealthResponse)) (s : HealthService)
    → pace (check_all rs s) ≡ follow_all rs (pace s)
unfolding check_all follow_all
check_all-pace [] s = refl
check_all-pace (r ∷ rs) s =
    check_all-pace rs (settle r.outcome r.latency r.now s)
    ∙ ap (follow_all rs) (settle-pace r.outcome r.latency r.now s)

-- After any sequence of one or more checks the next one waits as long as the backoff of the failures
-- since the last success says, those before the sequence included; after a success that is the base
-- interval.
pub health_pace :
    (r : Reply HealthResponse) (rs : List (Reply HealthResponse)) (s : HealthService)
    → next_delay (check_all (r ∷ rs) s)
      ≡ calculate_backoff_interval s (failures_after (r ∷ rs) s.consecutive_failures)
unfolding next_delay calculate_backoff_interval
health_pace r rs s = ap delay (check_all-pace (r ∷ rs) s) ∙ follow_all-delay r rs (pace s)
