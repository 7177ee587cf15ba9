-- ===== src/Health.antt =====
-- `HealthService` of frontend/src/services/healthService.ts: reachability of the backend.
pub mod Poll
pub mod Laws
use distributed_file_storage.Prelude.{
  ℕ, suc, String, Bool, true, false, Option, none, some, List, [], ltb, or_else, if◌then◌else◌,
}
use distributed_file_storage.Api.{
  HealthResponse, message_or, Outcome, resolved, rejected, Reply, PollingArgument, number, config,
}
use distributed_file_storage.Backoff.{Factor, default_factor, backoff_interval}
use distributed_file_storage.Runtime.{Runtime, clear_timeout?}
use distributed_file_storage.Runtime.Listeners.{add, delete, call, notify_listeners}

pub data ConnectivityStatus : Type 0 where
  connected degraded disconnected checking : ConnectivityStatus

pub record HealthCheckResult : Type 0 where
  pub reachable : Bool
  pub status : ConnectivityStatus
  pub latency_ms : ℕ
  pub response : Option HealthResponse
  pub error : Option String
  pub timestamp : ℕ
  pub consecutive_failures : ℕ
  pub current_interval_ms : ℕ

pub record HealthPollingConfig : Type 0 where
  pub interval_ms : Option ℕ
  pub base_interval_ms : Option ℕ
  pub max_interval_ms : Option ℕ
  pub backoff_factor : Option Factor

pub record HealthService : Type 0 where
  pub last_result : HealthCheckResult
  pub listeners : List ℕ
  pub timer_id : Option ℕ
  pub is_polling : Bool
  pub base_interval_ms : ℕ
  pub max_interval_ms : ℕ
  pub backoff_factor : Factor
  pub consecutive_failures : ℕ
  pub current_interval_ms : ℕ

abbrev pub HealthRuntime : Type 0
HealthRuntime = Runtime HealthCheckResult

-- The result before the first check, at the time `now`.
abbrev pub unchecked : ℕ → ℕ → HealthCheckResult
unchecked now interval = record {
  reachable = false;
  status = checking;
  latency_ms = 0;
  response = none;
  error = none;
  timestamp = now;
  consecutive_failures = 0;
  current_interval_ms = interval;
}

unfoldable pub new : ℕ → HealthService
new now = record {
  last_result = unchecked now 3000;
  listeners = [];
  timer_id = none;
  is_polling = false;
  base_interval_ms = 3000;
  max_interval_ms = 15000;
  backoff_factor = default_factor;
  consecutive_failures = 0;
  current_interval_ms = 3000;
}

unfoldable pub calculate_backoff_interval : HealthService → ℕ → ℕ
calculate_backoff_interval s failures =
    backoff_interval s.base_interval_ms s.max_interval_ms s.backoff_factor failures

-- `checkHealth` after the `await`: the `try` branch on a response, the `catch` branch on an error.
unfoldable pub settle : Outcome HealthResponse → ℕ → ℕ → HealthService → HealthService
settle (resolved response) latency now s = record s {
  consecutive_failures = 0;
  current_interval_ms = s.base_interval_ms;
  last_result = record {
    reachable = true;
    status = if ltb 1000 latency then degraded else connected;
    latency_ms = latency;
    response = some response;
    error = none;
    timestamp = now;
    consecutive_failures = 0;
    current_interval_ms = s.base_interval_ms;
  };
}
settle (rejected err) latency now s =
    let failures = suc s.consecutive_failures in
    let interval = calculate_backoff_interval s failures in
    record s {
      consecutive_failures = failures;
      current_interval_ms = interval;
      last_result = record {
        reachable = false;
        status = disconnected;
        latency_ms = 0;
        response = none;
        error = some (message_or "Backend unreachable" err);
        timestamp = now;
        consecutive_failures = failures;
        current_interval_ms = interval;
      };
    }

-- `checkHealth` from the `await` to its end.
unfoldable pub check_health :
    Reply HealthResponse → HealthService → HealthRuntime → HealthService × HealthRuntime
check_health reply s rt =
    let s' = settle reply.outcome reply.latency reply.now s in
    (s', notify_listeners s'.listeners s'.last_result rt)

-- `retry` before it calls `checkHealth`.
unfoldable pub retry : HealthService → HealthService
retry s = record s { consecutive_failures = 0; current_interval_ms = s.base_interval_ms }

-- The settings of `startPolling`.
unfoldable pub configure : PollingArgument HealthPollingConfig → HealthService → HealthService
configure (number n) s = record s { base_interval_ms = n; current_interval_ms = n }
configure (config c) s =
    let base = or_else c.base_interval_ms (or_else c.interval_ms 3000) in
    record s {
      base_interval_ms = base;
      max_interval_ms = or_else c.max_interval_ms 15000;
      backoff_factor = or_else c.backoff_factor default_factor;
      current_interval_ms = base;
    }

unfoldable pub stop_polling : HealthService → HealthRuntime → HealthService × HealthRuntime
stop_polling s rt = (record s { is_polling = false; timer_id = none }, clear_timeout? s.timer_id rt)

-- The listener is called at once; the flag says whether it threw, which ends the call.
unfoldable pub subscribe : ℕ → HealthService → HealthRuntime → HealthService × HealthRuntime × Bool
subscribe listener s rt =
    let (rt', thrown) = call listener s.last_result rt in
    (record s { listeners = add listener s.listeners }, rt', thrown)

unfoldable pub unsubscribe : ℕ → HealthService → HealthService
unsubscribe listener s = record s { listeners = delete listener s.listeners }

unfoldable pub reset : ℕ → HealthService → HealthRuntime → HealthService × HealthRuntime
unfolding stop_polling
reset now s rt =
    let (s', rt') = stop_polling s rt in
    (
      record s' {
        consecutive_failures = 0;
        current_interval_ms = s'.base_interval_ms;
        last_result = unchecked now s'.base_interval_ms;
        listeners = [];
      },
      rt',
    )

-- The delay before the next execution of the loop.
unfoldable pub next_delay : HealthService → ℕ
next_delay s =
    if s.last_result.reachable then s.base_interval_ms else s.last_result.current_interval_ms

unfoldable pub get_last_result : HealthService → HealthCheckResult
get_last_result s = s.last_result

unfoldable pub is_running : HealthService → Bool
is_running s = s.is_polling
