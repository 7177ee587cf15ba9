-- ===== src/Application/Sync.antt =====
-- The listeners that `init` of frontend/src/main.ts puts on the services, and which updates they pass on to
-- the panel of the files.
pub mod Kept
pub mod Current
use distributed_file_storage.Prelude.{
  ℕ, String, str_eq, Bool, true, false, not, ◌||◌, Option, none, some, List, [], ◌∷◌, if◌then◌else◌,
}
use distributed_file_storage.Api.{ClusterState, healthy, operational, no_majority}
use distributed_file_storage.Health.{HealthCheckResult}
use distributed_file_storage.Cluster.{ClusterStatusResult}
use distributed_file_storage.Heartbeat.{HeartbeatRailResult}
use distributed_file_storage.Files.{FileServiceResult}
use distributed_file_storage.Header.{is_normal, on_cluster_status, on_health}
use distributed_file_storage.FileTable.Panel.{Props}
use distributed_file_storage.FileTable.Update.{FilePanel, update_file_panel_dom, node_signature}
use distributed_file_storage.Shell.{Shell, on_heartbeats}
use distributed_file_storage.Application.{
  Application, Browser, Latest, update_nodes, state_of, props_of,
}

abbrev pub same_state : Option ClusterState → Option ClusterState → Bool
same_state none none = true
same_state (some healthy) (some healthy) = true
same_state (some operational) (some operational) = true
same_state (some no_majority) (some no_majority) = true
same_state _ _ = false

-- The guard that the listeners share.
abbrev pub is_idle : Bool → Application → Bool
is_idle has_error a = not (is_normal a.shell.current_view_state) || has_error

-- The update of the panel of the files; `search_focused` says that its search field has the focus.
abbrev pub dispatched : Bool → Application → Application
dispatched search_focused a = record a {
  file_panel = update_file_panel_dom search_focused (props_of a.latest) a.file_panel;
}

abbrev pub dispatch_cluster : Bool → Application → Application
dispatch_cluster search_focused a =
    let current = state_of a.latest.cluster in
    if same_state current a.last_dispatched_cluster_state
    then a
    else dispatched search_focused (record a { last_dispatched_cluster_state = current })

abbrev pub dispatch_nodes : Bool → Application → Application
dispatch_nodes search_focused a =
    let current = node_signature a.latest.heartbeats.nodes in
    if str_eq current a.last_dispatched_node_signature
    then a
    else dispatched search_focused (record a { last_dispatched_node_signature = current })

-- What a service tells. A result is the last one of its service when its listener runs.
pub data Event : Type 0 where
  health_result : HealthCheckResult → Event
  cluster_result : (search_focused : Bool) → ClusterStatusResult → Event
  heartbeat_result : (now : ℕ) (search_focused : Bool) → HeartbeatRailResult → Event
  file_result : (search_focused : Bool) → FileServiceResult → Event

module _ (w : Browser) (has_error : Bool) where
  unfoldable pub on_health_result : HealthCheckResult → Application → Application
  on_health_result r a = record a {
    latest = record a.latest { health = r };
    header = on_health a.shell.current_view_state has_error r a.header;
  }

  abbrev pub with_header : ClusterStatusResult → Application → Application
  with_header r a = record a {
    latest = record a.latest { cluster = r };
    header = on_cluster_status a.shell.current_view_state has_error a.latest.health r a.header;
  }

  unfoldable pub on_cluster_result : Bool → ClusterStatusResult → Application → Application
  on_cluster_result search_focused r a =
      let a' = with_header r a in
      if is_idle has_error a then a' else dispatch_cluster search_focused a'

  abbrev pub with_drawer : ℕ → HeartbeatRailResult → Application → Application
  with_drawer now r a = record a { shell = on_heartbeats w.url_port now has_error r.nodes a.shell }

  unfoldable pub on_heartbeat_result : ℕ → Bool → HeartbeatRailResult → Application → Application
  on_heartbeat_result now search_focused r a =
      let a' = record a { latest = record a.latest { heartbeats = r } } in
      let listed = update_nodes w now r.nodes a.shell.selected_node_id a' in
      if is_idle has_error a then a' else with_drawer now r (dispatch_nodes search_focused listed)

  unfoldable pub on_file_result : Bool → FileServiceResult → Application → Application
  on_file_result search_focused r a =
      let a' = record a { latest = record a.latest { files = r } } in
      if is_idle has_error a then a' else dispatched search_focused a'

  abbrev pub listen : Event → Application → Application
  listen (health_result r) a = on_health_result r a
  listen (cluster_result search_focused r) a = on_cluster_result search_focused r a
  listen (heartbeat_result now search_focused r) a = on_heartbeat_result now search_focused r a
  listen (file_result search_focused r) a = on_file_result search_focused r a

  abbrev pub listen_all : List Event → Application → Application
  listen_all [] a = a
  listen_all (e ∷ es) a = listen_all es (listen e a)
