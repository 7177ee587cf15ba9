-- ===== src/Heartbeat/Poll.antt =====
-- The heartbeat service behind the interface of the polling loop.
use distributed_file_storage.Prelude.{String, ℕ, true, Option, none, some, ◌≡◌, refl}
use distributed_file_storage.Api.{
  NodesResponse, Outcome, resolved, rejected, Reply, PollingArgument, number, config,
}
use distributed_file_storage.Runtime.{clear_timeout?, abort?}
use distributed_file_storage.Runtime.Listeners.Laws.{notify_listeners-timers}
use distributed_file_storage.Polling.{Poller, Machine, resume, start_polling as start_loop}
use distributed_file_storage.Polling.Lawful.{IsLawful, SameLoop}
use distributed_file_storage.Heartbeat.{
  HeartbeatService, HeartbeatRuntime, HeartbeatRailResult, HeartbeatPollingConfig, settle,
  poll_heartbeats, retry, configure, stop_polling, next_delay, begin_poll,
}

abbrev pub HeartbeatPoller : Type 0
HeartbeatPoller =
    Poller HeartbeatService HeartbeatRailResult (Reply NodesResponse)
      (PollingArgument HeartbeatPollingConfig)

stop-timers : (id : Option ℕ) (rt : HeartbeatRuntime) → (abort? id rt).timers ≡ rt.timers
stop-timers none rt = refl
stop-timers (some i) rt = refl

module _ (url_port : String → Option String) where
  unfoldable pub poller : HeartbeatPoller
  poller = record {
    is_polling = λ s. s.is_polling;
    timer_id = λ s. s.timer_id;
    set_polling = λ s. record s { is_polling = true };
    set_timer = λ i s. record s { timer_id = some i };
    configure = configure;
    reset_backoff = retry;
    begin = begin_poll;
    settle = poll_heartbeats url_port;
    stop_polling = stop_polling;
    delay = next_delay;
  }

  settle-same :
      (o : Outcome NodesResponse) (latency now : ℕ) (s : HeartbeatService)
      → SameLoop poller (settle url_port o latency now s) s
  unfolding settle poller
  settle-same (resolved response) latency now s = record { polling = refl; timer = refl }
  settle-same (rejected err) latency now s = record { polling = refl; timer = refl }

  configure-same :
      (c : PollingArgument HeartbeatPollingConfig) (s : HeartbeatService)
      → SameLoop poller (configure c s) s
  unfolding configure poller
  configure-same (number n) s = record { polling = refl; timer = refl }
  configure-same (config c) s = record { polling = refl; timer = refl }

  -- The service obeys the laws of the loop.
  pub poller-IsLawful : IsLawful poller
  unfolding poller begin_poll configure retry poll_heartbeats stop_polling
  poller-IsLawful = record {
    configure_loop = configure-same;
    reset_loop = λ s. record { polling = refl; timer = refl };
    begin_loop = λ s rt. record { polling = refl; timer = refl };
    begin_timers = λ s rt. refl;
    settle_loop = λ o s rt. settle-same o.outcome o.latency o.now s;
    settle_timers = λ o s rt. notify_listeners-timers _ _ rt;
    set_polling_on = λ s. refl;
    set_timer_polling = λ i s. refl;
    set_timer_id = λ i s. refl;
    stop_off = λ s rt. refl;
    stop_timers = λ s rt. stop-timers s.abort_controller (clear_timeout? s.timer_id rt);
  }

  -- `startPolling(config)`: the settings, `stopPolling`, and the first execution of the loop.
  unfoldable pub start_polling :
      PollingArgument HeartbeatPollingConfig
      → Machine HeartbeatService HeartbeatRailResult
      → Machine HeartbeatService HeartbeatRailResult
  unfolding poller
  start_polling = start_loop poller

  -- One execution of the loop after its `await`, with the timer for the next.
  unfoldable pub finish_loop :
      Reply NodesResponse
      → Machine HeartbeatService HeartbeatRailResult
      → Machine HeartbeatService HeartbeatRailResult
  unfolding poller
  finish_loop = resume poller
