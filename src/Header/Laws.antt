-- ===== src/Header/Laws.antt =====
-- What the header says after an update and after a failed poll.
use distributed_file_storage.Prelude.{ℕ, ◌≡◌, refl, false, Option, none}
use distributed_file_storage.Api.{healthy, ClusterStatusResponse, rejected, Thrown}
use distributed_file_storage.Health.{ConnectivityStatus, disconnected, HealthCheckResult}
use distributed_file_storage.Cluster.{ClusterStatusService, settle}
use distributed_file_storage.NodeDetail.{normal}
use distributed_file_storage.Header.{
  HeaderPanel, skeleton, bootstrapping, failed, shown, known, ok, whole_quorum, not_reached,
  render_cluster_status, update_cluster_status_dom, on_cluster_status,
}

-- Whatever the header shows, its update in place makes it what a fresh rendering of the same status,
-- connectivity and latency is: nothing of the old header is left.
pub update_cluster_status-eq-render :
    (status : Option ClusterStatusResponse) (connectivity : ConnectivityStatus) (latency : ℕ)
    (panel : HeaderPanel)
    → update_cluster_status_dom status connectivity latency panel
      ≡ render_cluster_status status connectivity latency normal none
unfolding update_cluster_status_dom
update_cluster_status-eq-render status connectivity latency skeleton = refl
update_cluster_status-eq-render status connectivity latency bootstrapping = refl
update_cluster_status-eq-render status connectivity latency (failed message) = refl
update_cluster_status-eq-render status connectivity latency (shown h) = refl

-- In the normal view without a fault, after a poll of the cluster's status that fails, whatever was known
-- before, the header shows a healthy
-- cluster with the leader nodeA, the term 4, the commit index 1042 and three of three nodes; the badge of
-- the connectivity alone says that the backend is not reached.
pub failed_poll_shows_healthy :
    (s : ClusterStatusService) (err : Thrown) (latency now : ℕ) (health : HealthCheckResult)
    (panel : HeaderPanel)
    → on_cluster_status normal false health (settle (rejected err) latency now s).last_result panel
      ≡ shown (record {
        indicator = record {
          label = known healthy;
          badge = ok;
          leader_tone = ok;
          leader = "nodeA";
        };
        term = 4;
        commit_index = 1042;
        quorum_tone = ok;
        active_nodes = 3;
        total_nodes = 3;
        mode = whole_quorum;
        connectivity = not_reached none;
      })
unfolding on_cluster_status settle
failed_poll_shows_healthy s err latency now health panel =
    update_cluster_status-eq-render none disconnected latency panel
