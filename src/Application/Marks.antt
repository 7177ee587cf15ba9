-- ===== src/Application/Marks.antt =====
-- Which lanes of the rail of frontend/src/main.ts are marked as selected, over calls of the drawer, the
-- replies to them, and results of the services.
use distributed_file_storage.Prelude.{
  ℕ, String, str_eq, ◌≡◌, sym, ap, ◌∙◌, subst, Bool, true, false, Option, none, some, List, [], ◌∷◌,
  All, if◌then◌else◌,
}
use distributed_file_storage.Api.{NodeDetailResponse, Outcome}
use distributed_file_storage.Heartbeat.Node.{NodeHeartbeatState}
use distributed_file_storage.NodeDetail.{normal}
use distributed_file_storage.Rail.{Lane, lanes, update_rail_panel}
use distributed_file_storage.Rail.Shows.{AreDistinct, IsNamed, Shows, update_heartbeat_rail-Shows}
use distributed_file_storage.FileTable.Update.{node_signature}
use distributed_file_storage.Shell.{
  Shell, begin_open, finish_open, close_node_detail, on_heartbeats, render_node_detail_container,
}
use distributed_file_storage.Shell.Keeps.{on_heartbeats-IsKept, finish_open-IsKept}
use distributed_file_storage.Application.Sync.Current.{is_idle-normal}
use distributed_file_storage.Application.{
  Application, Browser, state_of, open_detail, close_detail, update_nodes,
}
use distributed_file_storage.Application.Sync as Sync
use distributed_file_storage.Application.Sync.{
  health_result, cluster_result, heartbeat_result, file_result, listen, on_health_result,
  on_cluster_result, on_heartbeat_result, on_file_result, is_idle, with_header, with_drawer,
  dispatched, dispatch_cluster, dispatch_nodes, same_state, listen_all,
}

-- A reply comes with the cached node and the outcome of whichever call it belongs to.
pub data Event : Type 0 where
  opening : (now : ℕ) (id : String) → Event
  reply : (now : ℕ) (cached : Option NodeHeartbeatState) (o : Outcome NodeDetailResponse) → Event
  closing : (now : ℕ) → Event
  told : Sync.Event → Event

-- The nodes are named, and their identities are distinct.
abbrev pub AreProper : List NodeHeartbeatState → Type 0
AreProper nodes = AreDistinct nodes × All IsNamed nodes

abbrev pub TellsProper : Event → Type 0
TellsProper (told (heartbeat_result now search_focused r)) = AreProper r.nodes
TellsProper _ = Unit

-- Each node has a lane, whose live part (status, role, mark, spoken name, ticks, offset and port) is that of a
-- rendering with the selection.
abbrev pub IsMarked : Application → Type 0
IsMarked a =
    (ls : List Lane) × (a.rail ≡ lanes ls)
    × All (Shows a.shell.selected_node_id ls) a.latest.heartbeats.nodes

abbrev pub IsReady : Application → Type 0
IsReady a = (a.shell.current_view_state ≡ normal) × AreProper a.latest.heartbeats.nodes × IsMarked a

IsReady-if : (b : Bool) (x y : Application) → IsReady x → IsReady y → IsReady (if b then x else y)
IsReady-if true x y p q = p
IsReady-if false x y p q = q

module _ (w : Browser) (now : ℕ) (nodes : List NodeHeartbeatState) (selected : Option String) where
  -- After both updates of the nodes the rail is marked.
  update_nodes-marked :
      (a : Application)
      → AreProper nodes
      → (ls : List Lane) × (a.rail ≡ lanes ls)
      → (ls : List Lane) × ((update_nodes w now nodes selected a).rail ≡ lanes ls)
        × All (Shows selected ls) nodes
  unfolding update_rail_panel
  update_nodes-marked a (distinct, named) (ls, rail) = (
    _,
    ap (update_rail_panel selected nodes) rail,
    update_heartbeat_rail-Shows selected nodes ls distinct named,
  )

module _ (w : Browser) where
  abbrev pub step : Event → Application → Application
  step (opening now id) a = (open_detail w now id a).0
  step (reply now cached o) a = record a { shell = finish_open w.url_port now cached o a.shell }
  step (closing now) a = close_detail w now a
  step (told e) a = listen w false e a

  abbrev pub run : List Event → Application → Application
  run [] a = a
  run (e ∷ es) a = run es (step e a)

  IsReady-shell :
      (s : Shell) (a : Application)
      → s.selected_node_id ≡ a.shell.selected_node_id
      → s.current_view_state ≡ a.shell.current_view_state
      → IsReady a
      → IsReady (record a { shell = s })
  IsReady-shell s a selected view (normal_view, proper, (ls, rail, shows)) = (
    view ∙ normal_view,
    proper,
    (ls, rail, subst (λ i. All (Shows i ls) a.latest.heartbeats.nodes) (sym selected) shows),
  )

  IsReady-step : (e : Event) (a : Application) → TellsProper e → IsReady a → IsReady (step e a)
  unfolding open_detail begin_open close_detail close_node_detail render_node_detail_container
      on_health_result on_cluster_result on_heartbeat_result on_file_result
  IsReady-step (opening now id) a tells (view, proper, (ls, rail, shows)) = (
    view,
    proper,
    update_nodes-marked w now a.latest.heartbeats.nodes (some id) a proper (ls, rail),
  )
  IsReady-step (closing now) a tells (view, proper, (ls, rail, shows)) =
      (view, proper, update_nodes-marked w now a.latest.heartbeats.nodes none a proper (ls, rail))
  IsReady-step (reply now cached o) a tells ready =
      let (selected, view) = finish_open-IsKept w.url_port now cached o a.shell in
      IsReady-shell (finish_open w.url_port now cached o a.shell) a selected view ready
  IsReady-step (told (health_result r)) a tells ready = ready
  IsReady-step (told (file_result search_focused r)) a tells ready =
      IsReady-if (is_idle false a) _ _ ready ready
  IsReady-step (told (cluster_result search_focused r)) a tells ready =
      let current = state_of r in
      IsReady-if (is_idle false a) _ _ ready
        (IsReady-if (same_state current a.last_dispatched_cluster_state) _ _ ready ready)
  IsReady-step (told (heartbeat_result now search_focused r)) a tells
        (view, proper, (ls, rail, shows)) =
      let a' = record a { latest = record a.latest { heartbeats = r } } in
      let listed = update_nodes w now r.nodes a.shell.selected_node_id a' in
      let marked = update_nodes-marked w now r.nodes a.shell.selected_node_id a' tells (ls, rail) in
      let sent = dispatch_nodes search_focused listed in
      let same = str_eq (node_signature r.nodes) a.last_dispatched_node_signature in
      let ready = IsReady-if same listed _ (view, tells, marked) (view, tells, marked) in
      let (selected, kept) = on_heartbeats-IsKept w.url_port now false r.nodes sent.shell in
      rw (is_idle-normal a view) (
        IsReady-shell (on_heartbeats w.url_port now false r.nodes sent.shell) sent selected kept
          ready)

  IsReady-run :
      (es : List Event) (a : Application) → All TellsProper es → IsReady a → IsReady (run es a)
  IsReady-run [] a tell ready = ready
  IsReady-run (e ∷ es) a (tells, tell) ready =
      IsReady-run es (step e a) tell (IsReady-step e a tells ready)

  -- In the normal view, without an error, where the nodes of the last heartbeats are named and of distinct
  -- identities and each has a lane whose status, role, mark of the selection, spoken name, ticks, offset and port
  -- are those of a fresh rendering: so it is after any openings and closings of the drawer, replies, and results
  -- of the services whose nodes are named and of distinct identities too. The written name of a lane and the
  -- title of its track, which an update leaves alone, are not compared.
  pub run-IsMarked :
      (es : List Event) (a : Application)
      → All TellsProper es
      → a.shell.current_view_state ≡ normal
      → AreProper a.latest.heartbeats.nodes
      → IsMarked a
      → IsMarked (run es a)
  run-IsMarked es a tell view proper marked = (IsReady-run es a tell (view, proper, marked)).2
