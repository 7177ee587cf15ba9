-- ===== src/Application.antt =====
-- The page of frontend/src/main.ts as a whole: what its parts show, what the services have last told, and
-- openNodeDetail and closeNodeDetail, which move the drawer, the rail and the table of the nodes together.
-- The page's root elements are there.
pub mod Sync
pub mod Selection
pub mod Hover
pub mod Marks
pub mod Lifecycle
use distributed_file_storage.Prelude.{
  ℕ, String, Bool, true, false, Option, none, some, List, [], ◌∷◌, ◌++◌, if◌then◌else◌,
}
use distributed_file_storage.Api.{ClusterState, ClusterStatusResponse}
use distributed_file_storage.Health.{HealthCheckResult}
use distributed_file_storage.Cluster.{ClusterStatusResult}
use distributed_file_storage.Heartbeat.{HeartbeatRailResult}
use distributed_file_storage.Heartbeat.Node.{NodeHeartbeatState}
use distributed_file_storage.Files.{FileServiceResult}
use distributed_file_storage.Header.{HeaderPanel, render_cluster_status}
use distributed_file_storage.NodeDetail.{ViewState}
use distributed_file_storage.FileTable.Panel.{Props, render_file_panel}
use distributed_file_storage.Rail.{RailPanel, render_heartbeat_rail, update_rail_panel}
use distributed_file_storage.NodeTable.{Row, render_node_list}
use distributed_file_storage.NodeTable.Update.{NodeList, update_node_list_dom}
use distributed_file_storage.FileTable.Update.{FilePanel}
use distributed_file_storage.Focus.{Document, Container, focus_initial}
use distributed_file_storage.Shell.{
  Shell, begin_open, close_node_detail, render_node_detail_container,
}

-- The last results of the services.
pub record Latest : Type 0 where
  pub health : HealthCheckResult
  pub cluster : ClusterStatusResult
  pub heartbeats : HeartbeatRailResult
  pub files : FileServiceResult

pub record Application : Type 0 where
  pub shell : Shell
  pub header : HeaderPanel
  pub rail : RailPanel
  pub node_list : NodeList
  pub file_panel : FilePanel
  pub last_dispatched_cluster_state : Option ClusterState
  pub last_dispatched_node_signature : String
  pub latest : Latest
  pub document : Document

-- `result.data?.cluster_state`
abbrev pub state_of : ClusterStatusResult → Option ClusterState
state_of r = elim r.response [ none ↦ none | some c ↦ some c.cluster_state ]

abbrev pub props_of : Latest → Props
props_of l = record {
  files = l.files.files;
  total_files = some l.files.total_files;
  total_size_bytes = some l.files.total_size_bytes;
  search_query = l.files.search_query;
  upload = l.files.upload_state;
  download = l.files.download_state;
  delete = l.files.delete_state;
  nodes = l.heartbeats.nodes;
  cluster = state_of l.cluster;
}

-- The browser, as far as the page needs it.
pub record Browser : Type 0 where
  -- `new URL(url).port`, `none` where the constructor throws
  pub url_port : String → Option String
  -- `toISOString` of a date
  pub iso : ℕ → String
  -- the stable sort of the nodes by their names, in the order of the locale
  pub sort : List NodeHeartbeatState → List NodeHeartbeatState
  -- whether a row is written as the text of another
  pub same_row : Row → Row → Bool

module _ (w : Browser) where
  -- Both updates of the nodes, with a selection.
  abbrev pub update_nodes : ℕ → List NodeHeartbeatState → Option String → Application → Application
  update_nodes now nodes selected a = record a {
    rail = update_rail_panel selected nodes a.rail;
    node_list = update_node_list_dom w.same_row w.sort w.iso now nodes selected a.node_list;
  }

  -- `openNodeDetail` up to the `await`, with the cached node, which it keeps.
  unfoldable pub open_detail : ℕ → String → Application → Application × Option NodeHeartbeatState
  open_detail now id a =
      let nodes = a.latest.heartbeats.nodes in
      let (s, cached) = begin_open w.url_port now a.document nodes id a.shell in
      (record (update_nodes now nodes (some id) a) { shell = s }, cached)

  unfoldable pub close_detail : ℕ → Application → Application
  close_detail now a =
      let nodes = a.latest.heartbeats.nodes in
      let (s, d) = close_node_detail w.url_port now a.document a.shell in
      record (update_nodes now nodes none a) { shell = s; document = d }

  -- What renderDashboard draws where nothing fails. The modules keep their signatures.
  unfoldable pub draw : ℕ → Application → Application
  draw now a =
      let l = a.latest in
      let view = a.shell.current_view_state in
      let selected = a.shell.selected_node_id in
      let nodes = l.heartbeats.nodes in
      let table = render_node_list w.sort w.iso now nodes view none selected in
      record a {
        header =
            render_cluster_status l.cluster.response l.health.status l.cluster.latency_ms view none;
        rail = render_heartbeat_rail now nodes view none selected;
        node_list = record a.node_list { panel = table };
        file_panel = record a.file_panel {
          panel = render_file_panel view l.files.error (props_of l);
        };
        shell = render_node_detail_container w.url_port now a.shell;
      }

  unfoldable pub set_view_state : ℕ → ViewState → Application → Application
  unfolding draw
  set_view_state now view a =
      draw now (record a { shell = record a.shell { current_view_state = view } })

-- The timer that a rendering of the drawer of a selected node sets: `panel` is the drawer and `close` its close
-- button, each where the page has one.
unfoldable pub focus_drawer : Option Container → Option ℕ → Application → Application
focus_drawer none close a = a
focus_drawer (some panel) close a = record a { document = (focus_initial close panel a.document).0 }

-- `getViewState`
abbrev pub get_view_state : Application → ViewState
get_view_state a = a.shell.current_view_state
