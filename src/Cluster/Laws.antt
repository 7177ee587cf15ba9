-- ===== src/Cluster/Laws.antt =====
-- Properties of the cluster status service: the honesty of its result, and its pace under failures.
use distributed_file_storage.Prelude.{
  ℕ, ◌≡◌, refl, ap, ◌∙◌, ◌⊎◌, inl, inr, false, Option, none, some, List, [], ◌∷◌, is_some,
}
use distributed_file_storage.Api.{
  ClusterState, ClusterStatusResponse, Outcome, resolved, rejected, Reply, PollingArgument, number,
  config,
}
use distributed_file_storage.Backoff.Pace.{
  Pace, delay, follow, follow_all, failures_after, follow_all-delay,
}
use distributed_file_storage.Cluster.{
  ClusterStatusService, ClusterRuntime, ClusterStatusResult, PollingConfig, new,
  calculate_backoff_interval, begin_fetch, settle, fetch_cluster_status, retry, configure,
  stop_polling, subscribe, unsubscribe, reset, next_delay,
}

-- A call of a method of the service, with what the environment answers. A fetch is two events.
pub data Call : Type 0 where
  begun : Call
  fetched : Reply ClusterStatusResponse → Call
  retried : Call
  configured : PollingArgument PollingConfig → Call
  stopped : Call
  subscribed unsubscribed : ℕ → Call
  cleared : ℕ → Call

unfoldable pub perform :
    Call → ClusterStatusService → ClusterRuntime → ClusterStatusService × ClusterRuntime
perform begun s rt = begin_fetch s rt
perform (fetched reply) s rt = fetch_cluster_status reply s rt
perform retried s rt = begin_fetch (retry s) rt
perform (configured c) s rt = (configure c s, rt)
perform stopped s rt = stop_polling s rt
perform (subscribed l) s rt = ((subscribe l s rt).0, (subscribe l s rt).1)
perform (unsubscribed l) s rt = (unsubscribe l s, rt)
perform (cleared now) s rt = reset now s rt

unfoldable pub perform_all :
    List Call → ClusterStatusService → ClusterRuntime → ClusterStatusService × ClusterRuntime
perform_all [] s rt = (s, rt)
perform_all (c ∷ cs) s rt = let (s', rt') = perform c s rt in perform_all cs s' rt'

-- The state of the consensus in a response, 'UNKNOWN' without one.
abbrev pub state_of : Option ClusterStatusResponse → Option ClusterState
state_of none = none
state_of (some response) = some response.cluster_state

-- The status shown is that of the response at hand, which is there exactly when the backend was
-- reached; then there are no error and no failures.
abbrev pub IsHonest : ClusterStatusResult → Type 0
IsHonest r =
    (r.status ≡ state_of r.response)
    × (is_some r.response ≡ r.reachable)
    × ((r.reachable ≡ false) ⊎ (r.error ≡ none) × (r.consecutive_failures ≡ 0))

settle-IsHonest :
    (o : Outcome ClusterStatusResponse) (latency now : ℕ) (s : ClusterStatusService)
    → IsHonest (settle o latency now s).last_result
unfolding settle
settle-IsHonest (resolved response) latency now s = (refl, refl, inr (refl, refl))
settle-IsHonest (rejected err) latency now s = (refl, refl, inl refl)

configure-result :
    (c : PollingArgument PollingConfig) (s : ClusterStatusService)
    → (configure c s).last_result ≡ s.last_result
unfolding configure
configure-result (number n) s = refl
configure-result (config c) s = refl

retry-IsHonest :
    (s : ClusterStatusService) → IsHonest s.last_result → IsHonest (retry s).last_result
unfolding retry
retry-IsHonest s (same, there, inl off) = (same, there, inl off)
retry-IsHonest s (same, there, inr (e, n)) = (same, there, inr (e, refl))

perform-IsHonest :
    (c : Call) (s : ClusterStatusService) (rt : ClusterRuntime)
    → IsHonest s.last_result
    → IsHonest (perform c s rt).0.last_result
unfolding perform begin_fetch fetch_cluster_status stop_polling subscribe unsubscribe reset
perform-IsHonest begun s rt h = h
perform-IsHonest (fetched reply) s rt h = settle-IsHonest reply.outcome reply.latency reply.now s
perform-IsHonest retried s rt h = retry-IsHonest s h
perform-IsHonest (configured c) s rt h = rw (configure-result c s) h
perform-IsHonest stopped s rt h = h
perform-IsHonest (subscribed l) s rt h = h
perform-IsHonest (unsubscribed l) s rt h = h
perform-IsHonest (cleared now) s rt h = (refl, refl, inl refl)

perform_all-IsHonest :
    (cs : List Call) (s : ClusterStatusService) (rt : ClusterRuntime)
    → IsHonest s.last_result
    → IsHonest (perform_all cs s rt).0.last_result
unfolding perform_all
perform_all-IsHonest [] s rt h = h
perform_all-IsHonest (c ∷ cs) s rt h = perform_all-IsHonest cs _ _ (perform-IsHonest c s rt h)

-- Whatever calls are made of a new service, and however its fetches end, the status shown is that of
-- the last response while the backend is reachable and unknown otherwise, and a reachable backend
-- comes with no error and no failures.
pub cluster_result-IsHonest :
    (cs : List Call) (now : ℕ) (rt : ClusterRuntime)
    → IsHonest (perform_all cs (new now) rt).0.last_result
unfolding new
cluster_result-IsHonest cs now rt = perform_all-IsHonest cs _ rt (refl, refl, inl refl)

-- What of the service decides its pace.
abbrev pub pace : ClusterStatusService → Pace
pace s = record {
  base = s.base_interval_ms;
  most = s.max_interval_ms;
  factor = s.backoff_factor;
  failures = s.last_result.consecutive_failures;
  interval = s.last_result.current_interval_ms;
  reachable = s.last_result.reachable;
}

-- A sequence of fetches, with the replies to them.
unfoldable pub fetch_all :
    List (Reply ClusterStatusResponse) → ClusterStatusService → ClusterStatusService
fetch_all [] s = s
fetch_all (r ∷ rs) s = fetch_all rs (settle r.outcome r.latency r.now s)

settle-pace :
    (o : Outcome ClusterStatusResponse) (latency now : ℕ) (s : ClusterStatusService)
    → pace (settle o latency now s) ≡ follow o (pace s)
unfolding settle follow calculate_backoff_interval
settle-pace (resolved response) latency now s = refl
settle-pace (rejected err) latency now s = refl

fetch_all-pace :
    (rs : List (Reply ClusterStatusResponse)) (s : ClusterStatusService)
    → pace (fetch_all rs s) ≡ follow_all rs (pace s)
unfolding fetch_all follow_all
fetch_all-pace [] s = refl
fetch_all-pace (r ∷ rs) s =
    fetch_all-pace rs (settle r.outcome r.latency r.now s)
    ∙ ap (follow_all rs) (settle-pace r.outcome r.latency r.now s)

-- After any sequence of one or more fetches the next one waits as long as the backoff of the failures
-- since the last success says, those before the sequence included; after a success that is the base
-- interval.
pub cluster_pace :
    (r : Reply ClusterStatusResponse) (rs : List (Reply ClusterStatusResponse))
    (s : ClusterStatusService)
    → next_delay (fetch_all (r ∷ rs) s)
      ≡ calculate_backoff_interval s (failures_after (r ∷ rs) s.last_result.consecutive_failures)
unfolding next_delay calculate_backoff_interval
cluster_pace r rs s = ap delay (fetch_all-pace (r ∷ rs) s) ∙ follow_all-delay r rs (pace s)
