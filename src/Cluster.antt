-- ===== src/Cluster.antt =====
-- `ClusterStatusService` of frontend/src/services/clusterStatusService.ts: the state of the consensus.
-- `retry` writes into the result object that listeners already hold; a listener that keeps the object
-- sees that write, which the log of deliveries does not show.
pub mod Poll
pub mod Laws
use distributed_file_storage.Prelude.{
  ℕ, suc, String, Bool, true, false, Option, none, some, List, [], or_else, if◌then◌else◌,
}
use distributed_file_storage.Api.{
  ClusterState, ClusterStatusResponse, message_or, Outcome, resolved, rejected, Reply,
  PollingArgument, number, config,
}
use distributed_file_storage.Backoff.{Factor, default_factor, backoff_interval}
use distributed_file_storage.Runtime.{Runtime, clear_timeout?, new_controller, abort?}
use distributed_file_storage.Runtime.Listeners.{add, delete, call, notify_listeners}

-- `status` is `none` for 'UNKNOWN'.
pub record ClusterStatusResult : Type 0 where
  pub response : Option ClusterStatusResponse
  pub status : Option ClusterState
  pub reachable : Bool
  pub latency_ms : ℕ
  pub error : Option String
  pub timestamp : ℕ
  pub consecutive_failures : ℕ
  pub current_interval_ms : ℕ

pub record PollingConfig : Type 0 where
  pub base_interval_ms : Option ℕ
  pub max_interval_ms : Option ℕ
  pub backoff_factor : Option Factor
  pub request_timeout_ms : Option ℕ

pub record ClusterStatusService : Type 0 where
  pub last_result : ClusterStatusResult
  pub listeners : List ℕ
  pub timer_id : Option ℕ
  pub abort_controller : Option ℕ
  pub is_polling : Bool
  pub base_interval_ms : ℕ
  pub max_interval_ms : ℕ
  pub backoff_factor : Factor
  pub request_timeout_ms : ℕ

abbrev pub ClusterRuntime : Type 0
ClusterRuntime = Runtime ClusterStatusResult

abbrev pub unknown : ℕ → ℕ → ClusterStatusResult
unknown now interval = record {
  response = none;
  status = none;
  reachable = false;
  latency_ms = 0;
  error = none;
  timestamp = now;
  consecutive_failures = 0;
  current_interval_ms = interval;
}

unfoldable pub new : ℕ → ClusterStatusService
new now = record {
  last_result = unknown now 500;
  listeners = [];
  timer_id = none;
  abort_controller = none;
  is_polling = false;
  base_interval_ms = 500;
  max_interval_ms = 10000;
  backoff_factor = default_factor;
  request_timeout_ms = 2000;
}

unfoldable pub calculate_backoff_interval : ClusterStatusService → ℕ → ℕ
calculate_backoff_interval s failures =
    backoff_interval s.base_interval_ms s.max_interval_ms s.backoff_factor failures

-- `fetchClusterStatus` up to its `await`.
unfoldable pub begin_fetch :
    ClusterStatusService → ClusterRuntime → ClusterStatusService × ClusterRuntime
begin_fetch s rt =
    let (id, rt') = new_controller rt in (record s { abort_controller = some id }, rt')

-- `fetchClusterStatus` after the `await`: the `try` branch on a response, the `catch` branch on an
-- error, and `finally`.
unfoldable pub settle :
    Outcome ClusterStatusResponse → ℕ → ℕ → ClusterStatusService → ClusterStatusService
settle (resolved response) latency now s = record s {
  abort_controller = none;
  last_result = record {
    response = some response;
    status = some response.cluster_state;
    reachable = true;
    latency_ms = latency;
    error = none;
    timestamp = now;
    consecutive_failures = 0;
    current_interval_ms = s.base_interval_ms;
  };
}
settle (rejected err) latency now s =
    let failures = suc s.last_result.consecutive_failures in
    record s {
      abort_controller = none;
      last_result = record {
        response = none;
        status = none;
        reachable = false;
        latency_ms = latency;
        error = some (message_or "Cluster status query failed" err);
        timestamp = now;
        consecutive_failures = failures;
        current_interval_ms = calculate_backoff_interval s failures;
      };
    }

-- `fetchClusterStatus` from the `await` to its end.
unfoldable pub fetch_cluster_status :
    Reply ClusterStatusResponse
    → ClusterStatusService
    → ClusterRuntime
    → ClusterStatusService × ClusterRuntime
fetch_cluster_status reply s rt =
    let s' = settle reply.outcome reply.latency reply.now s in
    (s', notify_listeners s'.listeners s'.last_result rt)

-- `retry` before it calls `fetchClusterStatus`.
unfoldable pub retry : ClusterStatusService → ClusterStatusService
retry s =
    let r = s.last_result in
    record s {
      last_result = record r { consecutive_failures = 0; current_interval_ms = s.base_interval_ms };
    }

-- The settings of `startPolling`.
unfoldable pub configure :
    PollingArgument PollingConfig → ClusterStatusService → ClusterStatusService
configure (number n) s = record s { base_interval_ms = n }
configure (config c) s = record s {
  base_interval_ms = or_else c.base_interval_ms 500;
  max_interval_ms = or_else c.max_interval_ms 10000;
  backoff_factor = or_else c.backoff_factor default_factor;
  request_timeout_ms = or_else c.request_timeout_ms 2000;
}

unfoldable pub stop_polling :
    ClusterStatusService → ClusterRuntime → ClusterStatusService × ClusterRuntime
stop_polling s rt = (
  record s { is_polling = false; timer_id = none; abort_controller = none },
  abort? s.abort_controller (clear_timeout? s.timer_id rt),
)

-- The listener is called at once; the flag says whether it threw, which ends the call.
unfoldable pub subscribe :
    ℕ → ClusterStatusService → ClusterRuntime → ClusterStatusService × ClusterRuntime × Bool
subscribe listener s rt =
    let (rt', thrown) = call listener s.last_result rt in
    (record s { listeners = add listener s.listeners }, rt', thrown)

unfoldable pub unsubscribe : ℕ → ClusterStatusService → ClusterStatusService
unsubscribe listener s = record s { listeners = delete listener s.listeners }

unfoldable pub reset :
    ℕ → ClusterStatusService → ClusterRuntime → ClusterStatusService × ClusterRuntime
unfolding stop_polling
reset now s rt =
    let (s', rt') = stop_polling s rt in
    (record s' { last_result = unknown now s'.base_interval_ms; listeners = [] }, rt')

-- The delay before the next execution of the loop.
unfoldable pub next_delay : ClusterStatusService → ℕ
next_delay s =
    if s.last_result.reachable then s.base_interval_ms else s.last_result.current_interval_ms

unfoldable pub get_last_result : ClusterStatusService → ClusterStatusResult
get_last_result s = s.last_result

unfoldable pub is_running : ClusterStatusService → Bool
is_running s = s.is_polling
