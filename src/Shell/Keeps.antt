-- ===== src/Shell/Keeps.antt =====
-- What replies and heartbeats leave alone of the variables of frontend/src/main.ts: the selection and the view.
use distributed_file_storage.Prelude.{
  ℕ, String, ◌≡◌, refl, Bool, true, false, not, ◌||◌, Option, none, some, List, truthy,
  if◌then◌else◌,
}
use distributed_file_storage.Api.{NodeDetailResponse, Outcome, resolved, rejected}
use distributed_file_storage.Heartbeat.Node.{NodeHeartbeatState}
use distributed_file_storage.Shell.{
  Shell, is_normal, find_node, answered, with_beat, beat_selected, finish_open, on_heartbeats,
  render_node_detail_container,
}

abbrev pub IsKept : Shell → Shell → Type 0
IsKept s s' =
    (s'.selected_node_id ≡ s.selected_node_id) × (s'.current_view_state ≡ s.current_view_state)

IsKept-if : (b : Bool) (s t u : Shell) → IsKept s t → IsKept s u → IsKept s (if b then t else u)
IsKept-if true s t u p q = p
IsKept-if false s t u p q = q

answered-IsKept :
    (cached : Option NodeHeartbeatState) (o : Outcome NodeDetailResponse) (s : Shell)
    → IsKept s (answered cached o s)
answered-IsKept cached (resolved d) s = (refl, refl)
answered-IsKept cached (rejected e) s = (refl, refl)

module _ (url_port : String → Option String) where
  with_beat-IsKept :
      (now : ℕ) (id : String) (found : Option NodeHeartbeatState) (s : Shell)
      → IsKept s (with_beat url_port now id found s)
  with_beat-IsKept now id none s = (refl, refl)
  with_beat-IsKept now id (some n) s = (refl, refl)

  beat_selected-IsKept :
      (now : ℕ) (nodes : List NodeHeartbeatState) (id : Option String) (s : Shell)
      → IsKept s (beat_selected url_port now nodes id s)
  beat_selected-IsKept now nodes none s = (refl, refl)
  beat_selected-IsKept now nodes (some id) s =
      IsKept-if (truthy id) s _ _ (with_beat-IsKept now id (find_node id nodes) s) (refl, refl)

  pub on_heartbeats-IsKept :
      (now : ℕ) (has_error : Bool) (nodes : List NodeHeartbeatState) (s : Shell)
      → IsKept s (on_heartbeats url_port now has_error nodes s)
  unfolding on_heartbeats
  on_heartbeats-IsKept now has_error nodes s =
      IsKept-if (not (is_normal s.current_view_state) || has_error) s _ _ (refl, refl)
        (beat_selected-IsKept now nodes s.selected_node_id s)

  pub finish_open-IsKept :
      (now : ℕ) (cached : Option NodeHeartbeatState) (o : Outcome NodeDetailResponse) (s : Shell)
      → IsKept s (finish_open url_port now cached o s)
  unfolding finish_open render_node_detail_container
  finish_open-IsKept now cached o s = answered-IsKept cached o s
