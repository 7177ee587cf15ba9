-- ===== src/Shell/Events.antt =====
-- The drawer of frontend/src/main.ts under any sequence of its calls, the replies to them and heartbeats.
use distributed_file_storage.Prelude.{
  ℕ, String, ◌≡◌, refl, sym, subst, Bool, true, false, not, ◌&&◌, ◌||◌, Option, none, some, List,
  [], ◌∷◌, truthy, if◌then◌else◌, str_eq,
}
use distributed_file_storage.Api.{NodeDetailResponse, Outcome}
use distributed_file_storage.Heartbeat.Node.{NodeHeartbeatState}
use distributed_file_storage.Focus.{Document}
use distributed_file_storage.NodeDetail.{
  NodeDetailProps, Panel, closed, skeleton, failed, telemetry, normal, loading, empty, error,
  render_node_detail_panel, update_node_detail_dom, open_panel, panel_of, update_open, ViewState,
}
use distributed_file_storage.Shell.{
  Shell, new, is_normal, opened, answered, cleared, beat_props, detail_props, find_node, begin_open,
  finish_open, close_node_detail, on_heartbeats, render_node_detail_container, with_beat,
  beat_selected,
}

-- A reply comes with the cached node and the outcome of whichever call it belongs to.
pub data Event : Type 0 where
  begin : (now : ℕ) (d : Document) (nodes : List NodeHeartbeatState) (id : String) → Event
  reply : (now : ℕ) (cached : Option NodeHeartbeatState) (o : Outcome NodeDetailResponse) → Event
  beat : (now : ℕ) (has_error : Bool) (nodes : List NodeHeartbeatState) → Event
  dismiss : (now : ℕ) (d : Document) → Event

-- The title of the open panel is the identity of the selected node.
abbrev pub Names : Option String → Panel → Type 0
Names id closed = Unit
Names id (skeleton shown) = id ≡ some shown
Names id (failed shown _) = id ≡ some shown
Names id (telemetry shown _) = id ≡ some shown

abbrev pub Tracks : Shell → Type 0
Tracks s = Names s.selected_node_id s.panel

module _ (url_port : String → Option String) where
  abbrev pub step : Event → Shell → Shell
  step (begin now d nodes id) s = (begin_open url_port now d nodes id s).0
  step (reply now cached o) s = finish_open url_port now cached o s
  step (beat now has_error nodes) s = on_heartbeats url_port now has_error nodes s
  step (dismiss now d) s = (close_node_detail url_port now d s).0

  abbrev pub run : List Event → Shell → Shell
  run [] s = s
  run (e ∷ es) s = run es (step e s)

  Names-open_panel :
      (now : ℕ) (id : String) (v : ViewState) (p : NodeDetailProps)
      → Names (some id) (open_panel url_port now id v p)
  Names-open_panel now id normal p = refl
  Names-open_panel now id loading p = refl
  Names-open_panel now id empty p = refl
  Names-open_panel now id error p = refl

  Names-if :
      (id : Option String) (b : Bool) (x y : Panel)
      → Names id x
      → Names id y
      → Names id (if b then x else y)
  Names-if id true x y n m = n
  Names-if id false x y n m = m

  Names-panel_of :
      (now : ℕ) (id : Option String) (p : NodeDetailProps) → Names id (panel_of url_port now id p)
  Names-panel_of now none p = tt
  Names-panel_of now (some id) p =
      Names-if _ (p.is_open && truthy id) _ _ (Names-open_panel now id p.state p) tt

  Names-update_open :
      (now : ℕ) (id : String) (p : NodeDetailProps) (panel : Panel)
      → p.node_id ≡ some id
      → Names (some id) panel
      → Names (some id) (update_open url_port now id p panel)
  unfolding render_node_detail_panel
  Names-update_open now id p closed same names = rw (← same) (Names-panel_of now p.node_id p)
  Names-update_open now id p (skeleton _) same names = rw (← same) (Names-panel_of now p.node_id p)
  Names-update_open now id p (failed _ _) same names = rw (← same) (Names-panel_of now p.node_id p)
  Names-update_open now id p (telemetry shown t) same names =
      Names-if _ (str_eq shown id) _ _ names (rw (← same) (Names-panel_of now p.node_id p))

  Tracks-render : (now : ℕ) (s : Shell) → Tracks (render_node_detail_container url_port now s)
  unfolding render_node_detail_container render_node_detail_panel
  Tracks-render now s = Names-panel_of now s.selected_node_id (detail_props s)

  Tracks-if : (b : Bool) (s t : Shell) → Tracks s → Tracks t → Tracks (if b then s else t)
  Tracks-if true s t p q = p
  Tracks-if false s t p q = q

  Tracks-with_beat :
      (now : ℕ) (id : String) (found : Option NodeHeartbeatState) (s : Shell)
      → s.selected_node_id ≡ some id
      → Tracks s
      → Tracks (with_beat url_port now id found s)
  unfolding update_node_detail_dom
  Tracks-with_beat now id none s same tracks = tracks
  Tracks-with_beat now id (some n) s same tracks =
      subst (λ i. Names i (with_beat url_port now id (some n) s).panel) (sym same)
        (Names-if (some id) (truthy id) _ _
          (Names-update_open now id (beat_props id n) s.panel refl
            (subst (λ i. Names i s.panel) same tracks))
          tt)

  Tracks-beat :
      (now : ℕ) (nodes : List NodeHeartbeatState) (id : Option String) (s : Shell)
      → s.selected_node_id ≡ id
      → Tracks s
      → Tracks (beat_selected url_port now nodes id s)
  Tracks-beat now nodes none s same tracks = tracks
  Tracks-beat now nodes (some id) s same tracks =
      Tracks-if (truthy id) _ _ (Tracks-with_beat now id (find_node id nodes) s same tracks) tracks

  Tracks-step : (e : Event) (s : Shell) → Tracks s → Tracks (step e s)
  unfolding begin_open finish_open close_node_detail on_heartbeats
  Tracks-step (begin now d nodes id) s tracks =
      Tracks-render now (opened d id (find_node id nodes) s)
  Tracks-step (reply now cached o) s tracks = Tracks-render now (answered cached o s)
  Tracks-step (dismiss now d) s tracks = Tracks-render now (cleared s)
  Tracks-step (beat now has_error nodes) s tracks =
      Tracks-if (not (is_normal s.current_view_state) || has_error) _ _ tracks
        (Tracks-beat now nodes s.selected_node_id s refl tracks)

  Tracks-run : (es : List Event) (s : Shell) → Tracks s → Tracks (run es s)
  Tracks-run [] s tracks = tracks
  Tracks-run (e ∷ es) s tracks = Tracks-run es (step e s) (Tracks-step e s tracks)

  -- Whatever calls, replies and heartbeats come, in whatever order: the drawer, where it is open, has the
  -- identity of the selected node as its title, and with none selected it is closed. What stands below the
  -- title is not said here.
  pub run-Tracks : (es : List Event) → Tracks (run es new)
  unfolding new
  run-Tracks es = Tracks-run es new tt
