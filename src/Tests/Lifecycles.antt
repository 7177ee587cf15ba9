-- ===== src/Tests/Lifecycles.antt =====
-- A run of the page from its beginning to its end.
use distributed_file_storage.Prelude.{◌≡◌, refl, false, none, List, [], ◌∷◌}
use distributed_file_storage.Tests.{idle, failure, success, healthy_response, no_port}
use distributed_file_storage.Health as Health
use distributed_file_storage.Health.Poll as HealthPoll
use distributed_file_storage.Cluster as Cluster
use distributed_file_storage.Cluster.Poll as ClusterPoll
use distributed_file_storage.Heartbeat as Heartbeat
use distributed_file_storage.Heartbeat.Poll as HeartbeatPoll
use distributed_file_storage.Files as Files
use distributed_file_storage.Files.Poll as FilePoll
use distributed_file_storage.Polling.{Machine, respond, fire, retry}
use distributed_file_storage.Router as Router
use distributed_file_storage.Application.Lifecycle.{Page, init, before_unload}
use distributed_file_storage.Application.Lifecycle.Unload.{
  Turn, in_health, in_cluster, in_heartbeats, in_files, turn_all, unload_silences,
}

abbrev resting : {S R : Type 0} → S → Machine S R
resting s = record { service = s; runtime = idle; waiting = 0; outside = 0; requests = 0 }

abbrev page : Page
page = record {
  router = Router.new "";
  boundary = record {
    current_error = none;
    listeners = [];
    retry_callbacks = [];
    logged = [];
    runtime = idle;
  };
  health = resting (Health.new 0);
  cluster = resting (Cluster.new 0);
  heartbeats = resting (Heartbeat.new 0);
  files = resting (Files.new 0);
}

-- The page after its beginning and the first answer of the health service.
abbrev seen : Page
seen = turn_all no_port (in_health (respond (success healthy_response)) ∷ []) (init no_port page)

abbrev late : List Turn
late =
    in_cluster (respond failure)
    ∷ in_health (fire 1)
    ∷ in_files retry
    ∷ in_heartbeats (respond failure)
    ∷ []

unload_silences_example :
    let q = turn_all no_port late (before_unload no_port seen) in
    (HealthPoll.poller.is_polling q.health.service ≡ false)
    × (q.health.requests ≡ seen.health.requests)
    × (ClusterPoll.poller.is_polling q.cluster.service ≡ false)
    × (q.cluster.requests ≡ seen.cluster.requests)
    × ((HeartbeatPoll.poller no_port).is_polling q.heartbeats.service ≡ false)
    × (q.heartbeats.requests ≡ seen.heartbeats.requests)
    × (FilePoll.poller.is_polling q.files.service ≡ false)
    × (q.files.requests ≡ seen.files.requests)
unload_silences_example = unload_silences no_port late seen (refl, (refl, (refl, (refl, tt))))
