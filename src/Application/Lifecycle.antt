-- ===== src/Application/Lifecycle.antt =====
-- The beginning and the end of the page: `init` of frontend/src/main.ts with the routes, the subscriptions and
-- the four polling loops, and its listener for the unloading. The listeners of init do not throw.
pub mod Unload
pub mod Routes
use distributed_file_storage.Prelude.{
  ℕ, String, ◌≡◌, refl, ◌≤◌, Bool, true, false, Option, List, [], ◌∷◌, ◌++◌, All,
}
use distributed_file_storage.Api.{
  Reply, PollingArgument, number, HealthResponse, ClusterStatusResponse, NodesResponse,
  FilesResponse,
}
use distributed_file_storage.Health as Health
use distributed_file_storage.Health.{HealthService, HealthCheckResult, HealthPollingConfig}
use distributed_file_storage.Health.Poll as HealthPoll
use distributed_file_storage.Cluster as Cluster
use distributed_file_storage.Cluster.{ClusterStatusService, ClusterStatusResult, PollingConfig}
use distributed_file_storage.Cluster.Poll as ClusterPoll
use distributed_file_storage.Heartbeat as Heartbeat
use distributed_file_storage.Heartbeat.{
  HeartbeatService, HeartbeatRailResult, HeartbeatPollingConfig,
}
use distributed_file_storage.Heartbeat.Poll as HeartbeatPoll
use distributed_file_storage.Files as Files
use distributed_file_storage.Files.{FileService, FileServiceResult, FilePollingConfig}
use distributed_file_storage.Files.Poll as FilePoll
use distributed_file_storage.Polling.{Machine, Event, step, run, stop_machine}
use distributed_file_storage.Runtime.{Runtime}
use distributed_file_storage.Polling.Runs.{is_start, run_quiet_after_stop}
use distributed_file_storage.Router.{Router, RouteHandler, handler, add_route, set_not_found, start}
use distributed_file_storage.Boundary.{ErrorBoundary, on_retry}

-- The objects that `init` puts together.
pub record Page : Type 0 where
  pub router : Router
  pub boundary : ErrorBoundary
  pub health : Machine HealthService HealthCheckResult
  pub cluster : Machine ClusterStatusService ClusterStatusResult
  pub heartbeats : Machine HeartbeatService HeartbeatRailResult
  pub files : Machine FileService FileServiceResult

-- The handlers of the routes: one draws the dashboard, the other leaves for the preview of the tokens.
abbrev pub draw_dashboard : RouteHandler
draw_dashboard = handler 0

abbrev pub open_tokens : RouteHandler
open_tokens = handler 1

unfoldable pub with_routes : Router → Router
with_routes r = set_not_found draw_dashboard (
    add_route "/tokens" open_tokens
      (add_route "/dashboard" draw_dashboard (add_route "/" draw_dashboard r)))

-- The listener of `init` in each service, and its callback for the retry.
abbrev listener : ℕ
listener = 1

-- A subscription, as each service has it, to the service of a machine.
abbrev subscribing :
    {S R : Type 0} → (ℕ → S → Runtime R → S × Runtime R × Bool) → Machine S R → Machine S R
subscribing subscribe m =
    let (s, rt, thrown) = subscribe listener m.service m.runtime in
    record m { service = s; runtime = rt }

-- `url_port` is the browser's URL parser.
module _ (url_port : String → Option String) where
  abbrev subscribe_all : Page → Page
  subscribe_all p = record p {
    health = subscribing Health.subscribe p.health;
    cluster = subscribing Cluster.subscribe p.cluster;
    heartbeats = subscribing Heartbeat.subscribe p.heartbeats;
    files = subscribing Files.subscribe p.files;
  }

  unfoldable pub init : Page → Page
  unfolding with_routes
  init p =
      let listening =
        subscribe_all
          (record p { boundary = on_retry listener p.boundary; router = with_routes p.router }) in
      record listening {
        router = start listening.router;
        health = HealthPoll.start_polling (number 3000) listening.health;
        cluster = ClusterPoll.start_polling (number 500) listening.cluster;
        heartbeats = HeartbeatPoll.start_polling url_port (number 500) listening.heartbeats;
        files = FilePoll.start_polling (number 3000) listening.files;
      }

  unfoldable pub before_unload : Page → Page
  before_unload p = record p {
    cluster = stop_machine ClusterPoll.poller p.cluster;
    heartbeats = stop_machine (HeartbeatPoll.poller url_port) p.heartbeats;
    health = stop_machine HealthPoll.poller p.health;
    files = stop_machine FilePoll.poller p.files;
  }
