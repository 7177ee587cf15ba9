-- ===== src/Tests/Hearts.antt =====
-- Runs of the heartbeat service.
use distributed_file_storage.Prelude.{◌≡◌, refl, false, some, [], ◌∷◌, map, All}
use distributed_file_storage.Api.{NodesResponse, resolved, rejected, message_or}
use distributed_file_storage.Tests.{failure, success, node_b, one_node, no_port, offline_error}
use distributed_file_storage.Heartbeat.{HeartbeatService, new, settle, initialize_default_nodes}
use distributed_file_storage.Heartbeat.NodeMap.{get, put, keys, values, IsKeyed}
use distributed_file_storage.Heartbeat.Polls.{poll_all}
use distributed_file_storage.Heartbeat.Window.{AllWindows, HasWindow, heartbeat_window}
use distributed_file_storage.Heartbeat.Pulse.{
  row, entry, AllLost, heartbeat_shows_response, heartbeat_failure_stalls_all,
}

abbrev service : HeartbeatService
service = new 0

heartbeat_window_example :
    let t = poll_all no_port (success one_node ∷ failure ∷ []) service in
    AllWindows service.max_history_ticks t.node_map
    × All (HasWindow service.max_history_ticks) t.last_result.nodes
unfolding new initialize_default_nodes put
heartbeat_window_example =
    heartbeat_window no_port (success one_node) (failure ∷ []) service (refl, (refl, (refl, tt)))

heartbeat_shows_response_example :
    let response : NodesResponse = record { nodes = some (node_b ∷ []) } in
    let t = settle no_port (resolved response) 12 2000 service in
    (map row t.last_result.nodes ≡ map entry (node_b ∷ [])) × IsKeyed t.node_map
unfolding new initialize_default_nodes put get
heartbeat_shows_response_example =
    heartbeat_shows_response no_port node_b [] 12 2000 service (refl, (refl, (refl, tt)))

heartbeat_failure_stalls_all_example :
    let t = settle no_port (rejected offline_error) 7 1000 service in
    AllLost (values service.node_map) t.last_result.nodes
    × (keys t.node_map ≡ keys service.node_map)
    × (t.last_result.reachable ≡ false)
    × (t.last_result.error ≡ some (message_or "Failed to query nodes" offline_error))
heartbeat_failure_stalls_all_example =
    heartbeat_failure_stalls_all no_port offline_error 7 1000 service
