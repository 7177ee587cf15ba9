-- ===== src/Shell/Return.antt =====
-- Where the focus goes when the drawer of frontend/src/main.ts is closed.
use distributed_file_storage.Prelude.{
  ℕ, String, ◌≡◌, refl, ap, ◌∙◌, Bool, true, false, not, ◌||◌, Option, none, some, List, [], ◌∷◌,
  truthy, if◌then◌else◌,
}
use distributed_file_storage.Api.{NodeDetailResponse, Outcome, resolved, rejected}
use distributed_file_storage.Heartbeat.Node.{NodeHeartbeatState}
use distributed_file_storage.Focus.{
  Document, FocusManager, captured, focus, capture_active_focus, restored, restore_previous_focus,
  get_previous_focus,
}
use distributed_file_storage.Runtime.Listeners.{has}
use distributed_file_storage.Shell.{
  Shell, new, is_normal, find_node, answered, with_beat, beat_selected, begin_open, finish_open,
  close_node_detail, on_heartbeats, render_node_detail_container,
}
use distributed_file_storage.Shell.Events.{Event, begin, reply, beat, dismiss, step, run}

-- Replies and heartbeats: what happens to the page while its user waits.
abbrev pub AreQuiet : List Event → Type 0
AreQuiet [] = Unit
AreQuiet (reply _ _ _ ∷ es) = AreQuiet es
AreQuiet (beat _ _ _ ∷ es) = AreQuiet es
AreQuiet (begin _ _ _ _ ∷ es) = ⊥
AreQuiet (dismiss _ _ ∷ es) = ⊥

if-focus :
    {m : FocusManager} (b : Bool) (s t : Shell)
    → s.focus_manager ≡ m
    → t.focus_manager ≡ m
    → (if b then s else t).focus_manager ≡ m
if-focus true s t p q = p
if-focus false s t p q = q

if-fst :
    (b : Bool) (d d' : Document)
    → (if◌then◌else◌ {A = Document × Bool} b (d, true) (d', false)).0 ≡ (if b then d else d')
if-fst true d d' = refl
if-fst false d d' = refl

pub restored-some :
    (e : ℕ) (d : Document) → (restored (some e) d).0 ≡ (if has e d.attached then focus e d else d)
restored-some e d = if-fst (has e d.attached) (focus e d) d

module _ (url_port : String → Option String) where
  with_beat-focus :
      (now : ℕ) (id : String) (found : Option NodeHeartbeatState) (s : Shell)
      → (with_beat url_port now id found s).focus_manager ≡ s.focus_manager
  with_beat-focus now id none s = refl
  with_beat-focus now id (some n) s = refl

  beat_selected-focus :
      (now : ℕ) (nodes : List NodeHeartbeatState) (id : Option String) (s : Shell)
      → (beat_selected url_port now nodes id s).focus_manager ≡ s.focus_manager
  beat_selected-focus now nodes none s = refl
  beat_selected-focus now nodes (some id) s =
      if-focus (truthy id) _ _ (with_beat-focus now id (find_node id nodes) s) refl

  answered-focus :
      (cached : Option NodeHeartbeatState) (o : Outcome NodeDetailResponse) (s : Shell)
      → (answered cached o s).focus_manager ≡ s.focus_manager
  answered-focus cached (resolved _) s = refl
  answered-focus cached (rejected _) s = refl

  run-focus :
      (es : List Event) (s : Shell)
      → AreQuiet es
      → (run url_port es s).focus_manager ≡ s.focus_manager
  unfolding finish_open on_heartbeats render_node_detail_container
  run-focus [] s quiet = refl
  run-focus (reply now cached o ∷ es) s quiet =
      run-focus es (step url_port (reply now cached o) s) quiet ∙ answered-focus cached o s
  run-focus (begin now d nodes id ∷ es) s quiet = absurd quiet
  run-focus (dismiss now d ∷ es) s quiet = absurd quiet
  run-focus (beat now has_error nodes ∷ es) s quiet =
      run-focus es (step url_port (beat now has_error nodes) s) quiet
      ∙ if-focus (not (is_normal s.current_view_state) || has_error) _ _ refl
          (beat_selected-focus now nodes s.selected_node_id s)

  -- Closing the drawer, after replies and heartbeats, gives the focus back to the element that had it at the
  -- last opening, if that element is still in the page, and to no other; then no element is remembered. An
  -- element that had the focus at an earlier opening is forgotten.
  pub close-last_opener :
      (before quiet : List Event) (now now' : ℕ) (d d' : Document) (nodes : List NodeHeartbeatState)
      (id : String) (opener : ℕ)
      → AreQuiet quiet
      → d.active_element ≡ some opener
      → let s = run url_port (begin now d nodes id ∷ quiet) (run url_port before new) in
        let (s', page) = close_node_detail url_port now' d' s in
        (page ≡ (if has opener d'.attached then focus opener d' else d'))
        × (get_previous_focus s'.focus_manager ≡ none)
  unfolding begin_open close_node_detail capture_active_focus restore_previous_focus
      get_previous_focus render_node_detail_container
  close-last_opener before quiet now now' d d' nodes id opener are_quiet active =
      let s₀ = run url_port before new in
      (
        ap (λ m. (restored m.previous_focus d').0)
              (run-focus quiet (begin_open url_port now d nodes id s₀).0 are_quiet
                ∙ ap (λ a. captured a s₀.focus_manager) active)
            ∙ restored-some opener d',
        refl,
      )
