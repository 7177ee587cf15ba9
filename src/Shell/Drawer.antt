-- ===== src/Shell/Drawer.antt =====
-- What the drawer shows after its calls and the replies to them, in order and out of order.
use distributed_file_storage.Prelude.{
  ℕ, String, ◌≡◌, refl, ap, ◌∙◌, Bool, true, false, Option, none, some, List, truthy, if◌then◌else◌,
  or_text, eq_iff, not, ◌||◌,
}
use distributed_file_storage.Api.{
  NodeDetailResponse, is_leader, Thrown, message_or, resolved, rejected,
}
use distributed_file_storage.Heartbeat.Node.{NodeHeartbeatState}
use distributed_file_storage.Focus.{Document}
use distributed_file_storage.NodeDetail.{
  normal, skeleton, failed, telemetry, Telemetry, render_telemetry, shown_latency,
  render_node_detail_panel, update_node_detail_dom, update_telemetry, update_open,
  resolve_node_metadata,
}
use distributed_file_storage.Shell.{
  Shell, find_node, detail_of_node, opened, render_node_detail_container, begin_open, finish_open,
  on_heartbeats, with_beat, beat_selected, beat_props, is_normal,
}

if-true : {A : Type 0} {b : Bool} (x y : A) → b ≡ true → (if b then x else y) ≡ x
if-true x y e = ap (λ b. if b then x else y) e

or_text-truthy : (m d : String) → truthy m ≡ true → or_text (some m) d ≡ m
or_text-truthy String.[] d e = cc
or_text-truthy (String.◌∷◌ c m) d e = refl

module _ (url_port : String → Option String) where
  missed_outcome :
      (now : ℕ) (d : Document) (id : String) (s : Shell) (cached : Option NodeHeartbeatState)
      (err : Thrown)
      → truthy id ≡ true
      → truthy (message_or "Node telemetry unreachable" err) ≡ true
      → let before = opened d id cached (record s { selected_node_detail = none }) in
        (finish_open url_port now cached (rejected err) before).panel ≡ elim cached [
          | none ↦ failed id (message_or "Node telemetry unreachable" err)
          | some n ↦
              telemetry id
                (render_telemetry url_port now id (some (detail_of_node n)) (some n.latency_tenths))
        ]
  unfolding finish_open render_node_detail_panel
  missed_outcome now d id s (some n) err named told = if-true _ _ named
  missed_outcome now d id s none err named told =
      rw named (rw told (ap (failed id) (or_text-truthy _ _ told)))

  -- Opening the drawer for a named node, with no details at hand: it first shows the skeleton; a response
  -- puts its values into it; without one it shows what the heartbeats know of the node, or, where they do not
  -- know it, the text of the error, if that is not empty.
  pub open_outcomes :
      (now : ℕ) (d : Document) (nodes : List NodeHeartbeatState) (id : String) (s : Shell)
      (detail : NodeDetailResponse) (err : Thrown)
      → truthy id ≡ true
      → truthy (message_or "Node telemetry unreachable" err) ≡ true
      → s.selected_node_detail ≡ none
      → let (opened, cached) = begin_open url_port now d nodes id s in
        let ended = finish_open url_port now cached (resolved detail) opened in
        let missed = finish_open url_port now cached (rejected err) opened in
        (opened.panel ≡ skeleton id)
        × (ended.panel
            ≡ telemetry id
                (render_telemetry url_port now id (some detail) ended.selected_node_latency))
        × (missed.panel ≡ elim (find_node id nodes) [
          | none ↦ failed id (message_or "Node telemetry unreachable" err)
          | some n ↦
              telemetry id
                (render_telemetry url_port now id (some (detail_of_node n)) (some n.latency_tenths))
        ])
  unfolding begin_open finish_open render_node_detail_panel
  open_outcomes now d nodes id s detail err named told empty = (
    if-true _ _ named,
    if-true _ _ named,
    ap
          (λ o.
            (finish_open url_port now (find_node id nodes) (rejected err) (
              render_node_detail_container url_port now
                (opened d id (find_node id nodes) (record s { selected_node_detail = o })))).panel)
          empty
        ∙ missed_outcome now d id s (find_node id nodes) err named told,
  )

  -- A reply that comes after another named node has been opened and answered takes its place: the drawer then
  -- shows the first node's response under the second one's name.
  pub late_reply_overwrites :
      (now : ℕ) (d : Document) (nodes : List NodeHeartbeatState) (a b : String) (s : Shell)
      (detail_a detail_b : NodeDetailResponse)
      → truthy b ≡ true
      → let (s₁, cached_a) = begin_open url_port now d nodes a s in
        let (s₂, cached_b) = begin_open url_port now d nodes b s₁ in
        let s₃ = finish_open url_port now cached_b (resolved detail_b) s₂ in
        let s₄ = finish_open url_port now cached_a (resolved detail_a) s₃ in
        (s₄.selected_node_id ≡ some b)
        × (s₄.selected_node_detail ≡ some detail_a)
        × (s₄.panel
            ≡ telemetry b
                (render_telemetry url_port now b (some detail_a) s₄.selected_node_latency))
  unfolding begin_open finish_open render_node_detail_panel
  late_reply_overwrites now d nodes a b s detail_a detail_b named = (refl, refl, if-true _ _ named)

  on_heartbeats-selected :
      (now : ℕ) (nodes : List NodeHeartbeatState) (id : String) (n : NodeHeartbeatState) (s : Shell)
      → truthy id ≡ true
      → s.current_view_state ≡ normal
      → s.selected_node_id ≡ some id
      → find_node id nodes ≡ some n
      → on_heartbeats url_port now false nodes s ≡ with_beat url_port now id (some n) s
  unfolding on_heartbeats
  on_heartbeats-selected now nodes id n s named view selected found =
      ap
        (λ v.
          if not (is_normal v) || false
          then s
          else beat_selected url_port now nodes s.selected_node_id s)
        view
      ∙ ap (λ i. beat_selected url_port now nodes i s) selected
      ∙ if-true _ _ named
      ∙ ap (λ f. with_beat url_port now id f s) found

  with_beat-panel :
      (now : ℕ) (id : String) (n : NodeHeartbeatState) (s : Shell) (t : Telemetry)
      → truthy id ≡ true
      → s.panel ≡ telemetry id t
      → (with_beat url_port now id (some n) s).panel
        ≡ telemetry id
            (update_telemetry url_port now id (some (detail_of_node n)) (some n.latency_tenths) t)
  unfolding update_node_detail_dom
  with_beat-panel now id n s t named shown =
      if-true _ _ named
      ∙ ap (update_open url_port now id (beat_props id n)) shown
      ∙ if-true _ _ ((eq_iff id id).1 refl)

  answered-panel :
      (now : ℕ) (cached : Option NodeHeartbeatState) (id : String) (s : Shell)
      (detail : NodeDetailResponse)
      → truthy id ≡ true
      → s.selected_node_id ≡ some id
      → s.detail_error_message ≡ none
      → let answered = finish_open url_port now cached (resolved detail) s in
        answered.panel
        ≡ telemetry id
            (render_telemetry url_port now id (some detail) answered.selected_node_latency)
  unfolding finish_open render_node_detail_panel
  answered-panel now cached id s detail named selected clean =
      (λ j.
        let s' = record s { selected_node_id = selected j; detail_error_message = clean j } in
        (finish_open url_port now cached (resolved detail) s').panel)
      ∙ if-true _ _ named

  -- In the normal view, after a response for the selected node without an error text, a heartbeat that knows
  -- the node replaces the details by its own: the open panel then shows the node's state and latency from it,
  -- the term 4 and the commit index 1042, whatever the response said, and still the response's role badge,
  -- address and peers.
  pub beat_replaces_response :
      (now now' : ℕ) (nodes : List NodeHeartbeatState) (cached : Option NodeHeartbeatState)
      (id : String) (s : Shell) (detail : NodeDetailResponse) (n : NodeHeartbeatState)
      → truthy id ≡ true
      → s.current_view_state ≡ normal
      → s.selected_node_id ≡ some id
      → s.detail_error_message ≡ none
      → find_node id nodes ≡ some n
      → let answered = finish_open url_port now cached (resolved detail) s in
        let beaten = on_heartbeats url_port now' false nodes answered in
        let shown = render_telemetry url_port now id (some detail) answered.selected_node_latency in
        (beaten.selected_node_detail ≡ some (detail_of_node n))
        × (beaten.panel
            ≡ telemetry id (record shown {
              status = n.status;
              latency = shown_latency n.state n.status (some n.latency_tenths) id;
              latency_leader = is_leader n.state;
              last_heartbeat = n.last_heartbeat;
              term = 4;
              commit_index = 1042;
            }))
  unfolding update_telemetry render_telemetry resolve_node_metadata finish_open detail_of_node
  beat_replaces_response now now' nodes cached id s detail n named view selected clean found =
      let answered = finish_open url_port now cached (resolved detail) s in
      let step = on_heartbeats-selected now' nodes id n answered named view selected found in
      (
        ap (λ s. s.selected_node_detail) step,
        ap (λ s. s.panel) step
            ∙ with_beat-panel now' id n answered _ named
                (answered-panel now cached id s detail named selected clean),
      )
