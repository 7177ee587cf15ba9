-- ===== src/Tests/Headers.antt =====
-- Runs of the header and of the heartbeat rail.
use distributed_file_storage.Prelude.{◌≡◌, ◌≢◌, eq_iff, true, false, none, some, List, [], ◌∷◌}
use distributed_file_storage.Tests.{cluster_response, node_b, no_port}
use distributed_file_storage.Heartbeat.Node.{NodeHeartbeatState, fresh, ok, missed}
use distributed_file_storage.Health.{connected, disconnected}
use distributed_file_storage.NodeDetail.{normal}
use distributed_file_storage.Header.{render_cluster_status, update_cluster_status_dom}
use distributed_file_storage.Header.Laws.{update_cluster_status-eq-render}
use distributed_file_storage.Rail.{Lane, render_heartbeat_lane}

update_cluster_status-eq-render_example :
    update_cluster_status_dom
      (some cluster_response)
      disconnected
      9
      (render_cluster_status none connected 3 normal none)
    ≡ render_cluster_status (some cluster_response) disconnected 9 normal none
update_cluster_status-eq-render_example =
    update_cluster_status-eq-render (some cluster_response) disconnected 9
      (render_cluster_status none connected 3 normal none)

abbrev b_node : NodeHeartbeatState
b_node = fresh no_port 2 "nodeB" node_b

abbrev stalled : NodeHeartbeatState
stalled = record b_node { history = ok ∷ missed ∷ []; is_pulsing = false }

abbrev c_node : NodeHeartbeatState
c_node = record b_node { id = "nodeC"; display_name = "Node C" }

abbrev lanes : List Lane
lanes = render_heartbeat_lane none b_node ∷ render_heartbeat_lane none c_node ∷ []

apart : c_node.id ≢ stalled.id
apart e = let agree : false ≡ true = (eq_iff "nodeC" "nodeB").1 e in cc
