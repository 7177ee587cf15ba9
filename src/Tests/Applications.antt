-- ===== src/Tests/Applications.antt =====
-- Runs of the page as a whole: what the services tell it, the keys, and the mouse.
use distributed_file_storage.Prelude.{
  ◌≡◌, ◌≢◌, eq_iff, refl, true, false, none, some, List, [], ◌∷◌, ◌++◌, if◌then◌else◌,
}
use distributed_file_storage.Api.{resolved, rejected}
use distributed_file_storage.Tests.{
  idle, cluster_response, offline_error, report, notes, no_port, node_b,
}
use distributed_file_storage.Health as Health
use distributed_file_storage.Cluster as Cluster
use distributed_file_storage.Cluster.{settle}
use distributed_file_storage.Heartbeat as Heartbeat
use distributed_file_storage.Files as Files
use distributed_file_storage.Files.{get_result}
use distributed_file_storage.Header as Header
use distributed_file_storage.Rail as Rail
use distributed_file_storage.NodeTable as NodeTable
use distributed_file_storage.NodeDetail.{closed}
use distributed_file_storage.FileTable.Panel.{View, shown, view_of}
use distributed_file_storage.FileTable.Update.{table_of, node_signature}
use distributed_file_storage.Dashboard as Dashboard
use distributed_file_storage.Focus.{Document, focus}
use distributed_file_storage.Runtime.Listeners.{has}
use distributed_file_storage.Shell as Shell
use distributed_file_storage.Application.{Application, Browser, Latest, props_of}
use distributed_file_storage.Application.Sync.{
  Event, cluster_result, heartbeat_result, file_result, listen_all,
}
use distributed_file_storage.Application.Sync.Kept.{IsDrawn}
use distributed_file_storage.Application.Sync.Current.{listen_all-IsDrawn}
use distributed_file_storage.Application.Selection.{
  Session, Target, node_detail, enter, escape, on_keydown,
}
use distributed_file_storage.Application.Selection.Keys.{enter_then_escape}
use distributed_file_storage.Heartbeat.{HeartbeatRailResult}
use distributed_file_storage.Heartbeat.Node.{NodeHeartbeatState, fresh}
use distributed_file_storage.Rail.{render_heartbeat_lane}
use distributed_file_storage.Application.Marks as Marks
use distributed_file_storage.Application.Marks.{IsMarked, run, run-IsMarked}
use distributed_file_storage.Application.Hover.{
  Mark, Marks, highlight_lane, on_mouse_over, on_mouse_out, select_lanes, hover_style,
}

abbrev browser : Browser
browser = record {
  url_port = no_port;
  iso = λ ms. "2026-01-02T03:04:05.000Z";
  sort = λ ns. ns;
  same_row = λ r r'. false;
}

abbrev latest : Latest
latest = record {
  health = (Health.new 0).last_result;
  cluster = (Cluster.new 0).last_result;
  heartbeats = (Heartbeat.new 0).last_result;
  files = get_result (record (Files.new 0) { files = report ∷ notes ∷ [] });
}

abbrev drawn : View
drawn = view_of (props_of latest) (table_of latest.files.files (props_of latest))

-- The element 7 has the focus.
abbrev page : Document
page = record { active_element = some 7; attached = 7 ∷ []; grants_focus = λ e. true }

abbrev application : Application
application = record {
  shell = Shell.new;
  header = Header.skeleton;
  rail = Rail.connecting;
  node_list = record { signature = ""; panel = NodeTable.skeleton };
  file_panel = record { signature = ""; panel = shown drawn };
  last_dispatched_cluster_state = none;
  last_dispatched_node_signature = node_signature latest.heartbeats.nodes;
  latest = latest;
  document = page;
}

abbrev events : List Event
events =
    cluster_result false (settle (resolved cluster_response) 7 1000 (Cluster.new 0)).last_result
    ∷ heartbeat_result 1000 false (Heartbeat.new 1000).last_result
    ∷ file_result true (get_result (record (Files.new 0) { files = notes ∷ [] }))
    ∷ cluster_result false (settle (rejected offline_error) 7 2000 (Cluster.new 0)).last_result
    ∷ []

listen_all-IsDrawn_example :
    let b = listen_all browser false events application in IsDrawn b.latest b.file_panel
unfolding Shell.new Cluster.new
listen_all-IsDrawn_example =
    listen_all-IsDrawn browser events application drawn refl refl refl refl refl

abbrev target : Target
target = record {
  boundary_retry = false;
  boundary_reset = false;
  retry_cluster = false;
  reconnect_rail = false;
  retry_nodes = false;
  close = false;
  refresh = false;
  row = some "nodeB";
  lane = none;
}

abbrev session : Session
session = record {
  application = application;
  boundary = record {
    boundary = record {
      current_error = none;
      listeners = [];
      retry_callbacks = 1 ∷ [];
      logged = [];
      runtime = idle;
    };
    screen = Dashboard.dashboard;
  };
  texts = record {
    requery_status = "Re-query Status";
    reconnect_rail = "Reconnect Rail";
    retry_fetch = "Retry Fetch";
  };
  requests = [];
  prevented = false;
}

-- The session after Enter on the row of nodeB.
abbrev opened : Session
opened = on_keydown browser 5 none enter target session

enter_then_escape_example :
    let ended = on_keydown browser 9 none escape target opened in
    let d = opened.application.document in
    (opened.application.shell.selected_node_id ≡ some "nodeB")
    × (opened.requests ≡ session.requests ++ node_detail "nodeB" ∷ [])
    × (ended.application.shell.selected_node_id ≡ none)
    × (ended.application.shell.panel ≡ closed)
    × (ended.requests ≡ opened.requests)
    × (ended.application.document ≡ (if has 7 d.attached then focus 7 d else d))
enter_then_escape_example =
    enter_then_escape browser 5 9 none none target target session opened "nodeB" 7 refl refl refl
      refl refl

abbrev mark : Mark
mark = record {
  node = some "nodeA";
  aliases = "Node A" ∷ [];
  selected = false;
  border_color = "";
  background_color = "";
}

abbrev marks : Marks
marks = record {
  lanes = mark ∷ record mark { node = some "nodeB"; aliases = [] } ∷ [];
  rows = mark ∷ record mark { node = some "nodeB"; aliases = [] } ∷ [];
}

hover_style_example :
    (on_mouse_out none (some "nodeB") (on_mouse_over none (some "nodeB") marks) ≡ marks)
    × (select_lanes none (
          on_mouse_out
            (some "nodeA")
            none
            (select_lanes (some "nodeA") (on_mouse_over (some "nodeA") none marks)))
        ≡ record marks { lanes = highlight_lane "nodeA" true marks.lanes })
hover_style_example =
    hover_style none (some "nodeB") "nodeA" marks refl
      ((refl, refl, refl), ((refl, refl, refl), tt)) ((refl, refl, refl), ((refl, refl, refl), tt))

abbrev b_node : NodeHeartbeatState
b_node = fresh no_port 2 "nodeB" node_b

abbrev c_node : NodeHeartbeatState
c_node = record b_node { id = "nodeC"; display_name = "Node C" }

abbrev two_nodes : HeartbeatRailResult
two_nodes = record (Heartbeat.new 0).last_result { nodes = b_node ∷ c_node ∷ [] }

apart : c_node.id ≢ b_node.id
apart e = let agree : false ≡ true = (eq_iff "nodeC" "nodeB").1 e in cc

abbrev marked : Application
marked = record application {
  rail = Rail.lanes (render_heartbeat_lane none b_node ∷ render_heartbeat_lane none c_node ∷ []);
  latest = record latest { heartbeats = two_nodes };
}

abbrev visit : List Marks.Event
visit =
    Marks.opening 5 "nodeC"
    ∷ Marks.told (heartbeat_result 1000 false two_nodes)
    ∷ Marks.reply 1200 none (rejected offline_error)
    ∷ Marks.closing 1500
    ∷ []

run-IsMarked_example : IsMarked (run browser visit marked)
unfolding Shell.new render_heartbeat_lane
run-IsMarked_example =
    run-IsMarked browser visit marked
      (tt, ((((apart, tt), (tt, tt)), (refl, (refl, tt))), (tt, (tt, tt)))) refl
      (((apart, tt), (tt, tt)), (refl, (refl, tt)))
      (_, refl, ((_, refl, refl), ((_, refl, refl), tt)))
