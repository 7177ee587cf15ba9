-- ===== src/Cluster/Poll.antt =====
-- The cluster status service behind the interface of the polling loop.
use distributed_file_storage.Prelude.{ℕ, true, Option, none, some, ◌≡◌, refl}
use distributed_file_storage.Api.{
  ClusterStatusResponse, Outcome, resolved, rejected, Reply, PollingArgument, number, config,
}
use distributed_file_storage.Runtime.{clear_timeout?, abort?}
use distributed_file_storage.Runtime.Listeners.Laws.{notify_listeners-timers}
use distributed_file_storage.Polling.{Poller, Machine, resume, start_polling as start_loop}
use distributed_file_storage.Polling.Lawful.{IsLawful, SameLoop}
use distributed_file_storage.Cluster.{
  ClusterStatusService, ClusterRuntime, ClusterStatusResult, PollingConfig, settle,
  fetch_cluster_status, retry, configure, stop_polling, next_delay, begin_fetch,
}

abbrev pub ClusterPoller : Type 0
ClusterPoller =
    Poller ClusterStatusService ClusterStatusResult (Reply ClusterStatusResponse)
      (PollingArgument PollingConfig)

unfoldable pub poller : ClusterPoller
poller = record {
  is_polling = λ s. s.is_polling;
  timer_id = λ s. s.timer_id;
  set_polling = λ s. record s { is_polling = true };
  set_timer = λ i s. record s { timer_id = some i };
  configure = configure;
  reset_backoff = retry;
  begin = begin_fetch;
  settle = fetch_cluster_status;
  stop_polling = stop_polling;
  delay = next_delay;
}

settle-same :
    (o : Outcome ClusterStatusResponse) (latency now : ℕ) (s : ClusterStatusService)
    → SameLoop poller (settle o latency now s) s
unfolding settle poller
settle-same (resolved response) latency now s = record { polling = refl; timer = refl }
settle-same (rejected err) latency now s = record { polling = refl; timer = refl }

configure-same :
    (c : PollingArgument PollingConfig) (s : ClusterStatusService)
    → SameLoop poller (configure c s) s
unfolding configure poller
configure-same (number n) s = record { polling = refl; timer = refl }
configure-same (config c) s = record { polling = refl; timer = refl }

stop-timers : (id : Option ℕ) (rt : ClusterRuntime) → (abort? id rt).timers ≡ rt.timers
stop-timers none rt = refl
stop-timers (some i) rt = refl

-- The service obeys the laws of the loop.
pub poller-IsLawful : IsLawful poller
unfolding poller begin_fetch configure retry fetch_cluster_status stop_polling
poller-IsLawful = record {
  configure_loop = configure-same;
  reset_loop = λ s. record { polling = refl; timer = refl };
  begin_loop = λ s rt. record { polling = refl; timer = refl };
  begin_timers = λ s rt. refl;
  settle_loop = λ o s rt. settle-same o.outcome o.latency o.now s;
  settle_timers = λ o s rt. notify_listeners-timers _ _ rt;
  set_polling_on = λ s. refl;
  set_timer_polling = λ i s. refl;
  set_timer_id = λ i s. refl;
  stop_off = λ s rt. refl;
  stop_timers = λ s rt. stop-timers s.abort_controller (clear_timeout? s.timer_id rt);
}

-- `startPolling(config)`: the settings, `stopPolling`, and the first execution of the loop.
unfoldable pub start_polling :
    PollingArgument PollingConfig
    → Machine ClusterStatusService ClusterStatusResult
    → Machine ClusterStatusService ClusterStatusResult
unfolding poller
start_polling = start_loop poller

-- One execution of the loop after its `await`, with the timer for the next.
unfoldable pub finish_loop :
    Reply ClusterStatusResponse
    → Machine ClusterStatusService ClusterStatusResult
    → Machine ClusterStatusService ClusterStatusResult
unfolding poller
finish_loop = resume poller
