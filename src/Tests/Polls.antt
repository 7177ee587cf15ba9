-- ===== src/Tests/Polls.antt =====
-- Runs of the polling loop, of the health service and of the cluster service.
use distributed_file_storage.Prelude.{◌+◌, ◌≤◌, ◌≡◌, refl, List, [], ◌∷◌, map, length, arith}
use distributed_file_storage.Api.{Reply, HealthResponse, PollingArgument, number}
use distributed_file_storage.Tests.{idle, failure, success, healthy_response}
use distributed_file_storage.Polling.{Machine, Event, start, stop, fire, respond, run, step}
use distributed_file_storage.Runtime.Listeners.{notify_listeners}
use distributed_file_storage.Polling.Runs.{run_alive}
use distributed_file_storage.Polling.SingleFlight.{run_single_flight}
use distributed_file_storage.Polling.Drain.{stop_drains}
use distributed_file_storage.Health
use distributed_file_storage.Health.{
  HealthService, HealthCheckResult, HealthPollingConfig, HealthRuntime,
}
use distributed_file_storage.Health.Poll.{poller, poller-IsLawful}
use distributed_file_storage.Health.Laws as HealthLaws
use distributed_file_storage.Health.Laws.{health_result-IsHonest, health_pace}

abbrev HealthEvent : Type 0
HealthEvent = Event (Reply HealthResponse) (PollingArgument HealthPollingConfig)

abbrev resting : Machine HealthService HealthCheckResult
resting = record { service = Health.new 0; runtime = idle; waiting = 0; outside = 0; requests = 0 }

-- Polling starts, a first poll succeeds, its timer runs, and the second poll fails.
abbrev two_polls : List HealthEvent
two_polls = start (number 2000) ∷ respond (success healthy_response) ∷ fire 1 ∷ respond failure ∷ []

run_alive_example :
    1
    ≤ (run poller two_polls resting).waiting + length (run poller two_polls resting).runtime.timers
unfolding run poller Health.new step Health.check_health Health.settle notify_listeners
    Health.stop_polling Health.configure
run_alive_example = run_alive poller poller-IsLawful two_polls resting refl refl

run_single_flight_example :
    let n = run poller two_polls resting in
    (n.waiting + length n.runtime.timers ≤ 1) × ((step poller stop n).runtime.timers ≡ [])
run_single_flight_example =
    run_single_flight poller poller-IsLawful two_polls resting refl refl
      (refl, (tt, (tt, (tt, tt))))

-- The loop's first request is under way.
abbrev waiting : Machine HealthService HealthCheckResult
waiting = record resting { waiting = 1 }

stop_drains_example :
    let n = run poller (map respond (failure ∷ [])) (step poller stop waiting) in
    (n.waiting ≡ 0) × (n.requests ≡ 0) × (length n.runtime.timers ≤ 0)
stop_drains_example = stop_drains poller poller-IsLawful (failure ∷ []) waiting (omega arith)

abbrev health_calls : List HealthLaws.Call
health_calls =
    HealthLaws.checked (success healthy_response)
    ∷ HealthLaws.stopped
    ∷ HealthLaws.checked failure
    ∷ []

abbrev health_runtime : HealthRuntime
health_runtime = idle

health_result-IsHonest_example :
    HealthLaws.IsHonest
      (HealthLaws.perform_all health_calls (Health.new 0) health_runtime).0.last_result
health_result-IsHonest_example = health_result-IsHonest health_calls 0 health_runtime
