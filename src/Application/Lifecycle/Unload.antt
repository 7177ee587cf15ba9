-- ===== src/Application/Lifecycle/Unload.antt =====
-- The four polling loops of frontend/src/main.ts, whose turns come in any order, after the page is unloaded.
use distributed_file_storage.Prelude.{String, ◌≡◌, refl, ap, ◌∙◌, false, Option, List, [], ◌∷◌, All}
use distributed_file_storage.Api.{
  Reply, PollingArgument, HealthResponse, ClusterStatusResponse, NodesResponse, FilesResponse,
}
use distributed_file_storage.Health.{HealthPollingConfig}
use distributed_file_storage.Health.Poll as HealthPoll
use distributed_file_storage.Cluster.{PollingConfig}
use distributed_file_storage.Cluster.Poll as ClusterPoll
use distributed_file_storage.Heartbeat.{HeartbeatPollingConfig}
use distributed_file_storage.Heartbeat.Poll as HeartbeatPoll
use distributed_file_storage.Files.{FilePollingConfig}
use distributed_file_storage.Files.Poll as FilePoll
use distributed_file_storage.Polling.{Poller, Event, step, run}
use distributed_file_storage.Polling.Runs.{is_start, run_quiet_after_stop}
use distributed_file_storage.Application.Lifecycle.{Page, before_unload}

-- One turn of the event loop, in one of the services.
pub data Turn : Type 0 where
  in_health : Event (Reply HealthResponse) (PollingArgument HealthPollingConfig) → Turn
  in_cluster : Event (Reply ClusterStatusResponse) (PollingArgument PollingConfig) → Turn
  in_heartbeats : Event (Reply NodesResponse) (PollingArgument HeartbeatPollingConfig) → Turn
  in_files : Event (Reply FilesResponse) (PollingArgument FilePollingConfig) → Turn

-- No turn starts a loop.
abbrev pub IsPassive : Turn → Type 0
IsPassive (in_health e) = is_start e ≡ false
IsPassive (in_cluster e) = is_start e ≡ false
IsPassive (in_heartbeats e) = is_start e ≡ false
IsPassive (in_files e) = is_start e ≡ false

abbrev turns_in_health :
    List Turn → List (Event (Reply HealthResponse) (PollingArgument HealthPollingConfig))
turns_in_health [] = []
turns_in_health (in_health e ∷ ts) = e ∷ turns_in_health ts
turns_in_health (_ ∷ ts) = turns_in_health ts

abbrev turns_in_cluster :
    List Turn → List (Event (Reply ClusterStatusResponse) (PollingArgument PollingConfig))
turns_in_cluster [] = []
turns_in_cluster (in_cluster e ∷ ts) = e ∷ turns_in_cluster ts
turns_in_cluster (_ ∷ ts) = turns_in_cluster ts

abbrev turns_in_heartbeats :
    List Turn → List (Event (Reply NodesResponse) (PollingArgument HeartbeatPollingConfig))
turns_in_heartbeats [] = []
turns_in_heartbeats (in_heartbeats e ∷ ts) = e ∷ turns_in_heartbeats ts
turns_in_heartbeats (_ ∷ ts) = turns_in_heartbeats ts

abbrev turns_in_files :
    List Turn → List (Event (Reply FilesResponse) (PollingArgument FilePollingConfig))
turns_in_files [] = []
turns_in_files (in_files e ∷ ts) = e ∷ turns_in_files ts
turns_in_files (_ ∷ ts) = turns_in_files ts

passive_in_health :
    (ts : List Turn) → All IsPassive ts → All (λ e. is_start e ≡ false) (turns_in_health ts)
passive_in_health [] h = tt
passive_in_health (in_health e ∷ ts) (q, h) = (q, passive_in_health ts h)
passive_in_health (in_cluster e ∷ ts) (q, h) = passive_in_health ts h
passive_in_health (in_heartbeats e ∷ ts) (q, h) = passive_in_health ts h
passive_in_health (in_files e ∷ ts) (q, h) = passive_in_health ts h

passive_in_cluster :
    (ts : List Turn) → All IsPassive ts → All (λ e. is_start e ≡ false) (turns_in_cluster ts)
passive_in_cluster [] h = tt
passive_in_cluster (in_health e ∷ ts) (q, h) = passive_in_cluster ts h
passive_in_cluster (in_cluster e ∷ ts) (q, h) = (q, passive_in_cluster ts h)
passive_in_cluster (in_heartbeats e ∷ ts) (q, h) = passive_in_cluster ts h
passive_in_cluster (in_files e ∷ ts) (q, h) = passive_in_cluster ts h

passive_in_heartbeats :
    (ts : List Turn) → All IsPassive ts → All (λ e. is_start e ≡ false) (turns_in_heartbeats ts)
passive_in_heartbeats [] h = tt
passive_in_heartbeats (in_health e ∷ ts) (q, h) = passive_in_heartbeats ts h
passive_in_heartbeats (in_cluster e ∷ ts) (q, h) = passive_in_heartbeats ts h
passive_in_heartbeats (in_heartbeats e ∷ ts) (q, h) = (q, passive_in_heartbeats ts h)
passive_in_heartbeats (in_files e ∷ ts) (q, h) = passive_in_heartbeats ts h

passive_in_files :
    (ts : List Turn) → All IsPassive ts → All (λ e. is_start e ≡ false) (turns_in_files ts)
passive_in_files [] h = tt
passive_in_files (in_health e ∷ ts) (q, h) = passive_in_files ts h
passive_in_files (in_cluster e ∷ ts) (q, h) = passive_in_files ts h
passive_in_files (in_heartbeats e ∷ ts) (q, h) = passive_in_files ts h
passive_in_files (in_files e ∷ ts) (q, h) = (q, passive_in_files ts h)

module _ (url_port : String → Option String) where
  abbrev pub turn : Turn → Page → Page
  turn (in_health e) p = record p { health = step HealthPoll.poller e p.health }
  turn (in_cluster e) p = record p { cluster = step ClusterPoll.poller e p.cluster }
  turn (in_heartbeats e) p = record p {
    heartbeats = step (HeartbeatPoll.poller url_port) e p.heartbeats;
  }
  turn (in_files e) p = record p { files = step FilePoll.poller e p.files }

  abbrev pub turn_all : List Turn → Page → Page
  turn_all [] p = p
  turn_all (t ∷ ts) p = turn_all ts (turn t p)

  turn_all-health :
      (ts : List Turn) (p : Page)
      → (turn_all ts p).health ≡ run HealthPoll.poller (turns_in_health ts) p.health
  unfolding run
  turn_all-health [] p = refl
  turn_all-health (in_health e ∷ ts) p = turn_all-health ts (turn (in_health e) p)
  turn_all-health (in_cluster e ∷ ts) p = turn_all-health ts (turn (in_cluster e) p)
  turn_all-health (in_heartbeats e ∷ ts) p = turn_all-health ts (turn (in_heartbeats e) p)
  turn_all-health (in_files e ∷ ts) p = turn_all-health ts (turn (in_files e) p)

  turn_all-cluster :
      (ts : List Turn) (p : Page)
      → (turn_all ts p).cluster ≡ run ClusterPoll.poller (turns_in_cluster ts) p.cluster
  unfolding run
  turn_all-cluster [] p = refl
  turn_all-cluster (in_health e ∷ ts) p = turn_all-cluster ts (turn (in_health e) p)
  turn_all-cluster (in_cluster e ∷ ts) p = turn_all-cluster ts (turn (in_cluster e) p)
  turn_all-cluster (in_heartbeats e ∷ ts) p = turn_all-cluster ts (turn (in_heartbeats e) p)
  turn_all-cluster (in_files e ∷ ts) p = turn_all-cluster ts (turn (in_files e) p)

  turn_all-heartbeats :
      (ts : List Turn) (p : Page)
      → (turn_all ts p).heartbeats
        ≡ run (HeartbeatPoll.poller url_port) (turns_in_heartbeats ts) p.heartbeats
  unfolding run
  turn_all-heartbeats [] p = refl
  turn_all-heartbeats (in_health e ∷ ts) p = turn_all-heartbeats ts (turn (in_health e) p)
  turn_all-heartbeats (in_cluster e ∷ ts) p = turn_all-heartbeats ts (turn (in_cluster e) p)
  turn_all-heartbeats (in_heartbeats e ∷ ts) p = turn_all-heartbeats ts (turn (in_heartbeats e) p)
  turn_all-heartbeats (in_files e ∷ ts) p = turn_all-heartbeats ts (turn (in_files e) p)

  turn_all-files :
      (ts : List Turn) (p : Page)
      → (turn_all ts p).files ≡ run FilePoll.poller (turns_in_files ts) p.files
  unfolding run
  turn_all-files [] p = refl
  turn_all-files (in_health e ∷ ts) p = turn_all-files ts (turn (in_health e) p)
  turn_all-files (in_cluster e ∷ ts) p = turn_all-files ts (turn (in_cluster e) p)
  turn_all-files (in_heartbeats e ∷ ts) p = turn_all-files ts (turn (in_heartbeats e) p)
  turn_all-files (in_files e ∷ ts) p = turn_all-files ts (turn (in_files e) p)

  -- Once the page is unloaded, and over any turns of the four services of which none starts a loop, no service
  -- polls, and none has begun a request for its loop since.
  pub unload_silences :
      (ts : List Turn) (p : Page)
      → All IsPassive ts
      → let q = turn_all ts (before_unload url_port p) in
        (Poller.is_polling HealthPoll.poller q.health.service ≡ false)
        × (q.health.requests ≡ p.health.requests)
        × (Poller.is_polling ClusterPoll.poller q.cluster.service ≡ false)
        × (q.cluster.requests ≡ p.cluster.requests)
        × (Poller.is_polling (HeartbeatPoll.poller url_port) q.heartbeats.service ≡ false)
        × (q.heartbeats.requests ≡ p.heartbeats.requests)
        × (Poller.is_polling FilePoll.poller q.files.service ≡ false)
        × (q.files.requests ≡ p.files.requests)
  unfolding before_unload step
  unload_silences ts p passive =
      let quiet_health =
        run_quiet_after_stop HealthPoll.poller HealthPoll.poller-IsLawful (turns_in_health ts)
          p.health (passive_in_health ts passive) in
      let seen_health = turn_all-health ts (before_unload url_port p) in
      let quiet_cluster =
        run_quiet_after_stop ClusterPoll.poller ClusterPoll.poller-IsLawful (turns_in_cluster ts)
          p.cluster (passive_in_cluster ts passive) in
      let seen_cluster = turn_all-cluster ts (before_unload url_port p) in
      let quiet_heartbeats =
        run_quiet_after_stop (HeartbeatPoll.poller url_port)
          (HeartbeatPoll.poller-IsLawful url_port) (turns_in_heartbeats ts) p.heartbeats
          (passive_in_heartbeats ts passive) in
      let seen_heartbeats = turn_all-heartbeats ts (before_unload url_port p) in
      let quiet_files =
        run_quiet_after_stop FilePoll.poller FilePoll.poller-IsLawful (turns_in_files ts) p.files
          (passive_in_files ts passive) in
      let seen_files = turn_all-files ts (before_unload url_port p) in
      (
        ap (λ m. Poller.is_polling HealthPoll.poller m.service) seen_health ∙ quiet_health.0,
        ap (λ m. m.requests) seen_health ∙ quiet_health.1,
        ap (λ m. Poller.is_polling ClusterPoll.poller m.service) seen_cluster ∙ quiet_cluster.0,
        ap (λ m. m.requests) seen_cluster ∙ quiet_cluster.1,
        ap (λ m. Poller.is_polling (HeartbeatPoll.poller url_port) m.service) seen_heartbeats
            ∙ quiet_heartbeats.0,
        ap (λ m. m.requests) seen_heartbeats ∙ quiet_heartbeats.1,
        ap (λ m. Poller.is_polling FilePoll.poller m.service) seen_files ∙ quiet_files.0,
        ap (λ m. m.requests) seen_files ∙ quiet_files.1,
      )
