-- ===== src/Tests/Drawers.antt =====
-- Runs of the drawer: its calls, replies and heartbeats, and the trap of the focus.
use distributed_file_storage.Prelude.{
  ◌↔◌, ℕ, String, ◌-◌, ◌/◌, zero, suc, ◌<◌, ◌≡◌, refl, ap, Bool, true, false, Option, none, some,
  List, [], ◌∷◌, arith, ◌==◌, if◌then◌else◌, get_elem?, length,
}
use distributed_file_storage.Api.{NodeDetailResponse, resolved, rejected, leader}
use distributed_file_storage.Tests.{offline_error, node_b, no_port}
use distributed_file_storage.Heartbeat.Node.{NodeHeartbeatState, fresh}
use distributed_file_storage.Focus.{
  Document, Container, Element, focus, get_previous_focus, get_focusable_elements,
}
use distributed_file_storage.Focus.Trap.{TabOrder, press_all, walk, press_all-walk}
use distributed_file_storage.Runtime.Listeners.{has}
use distributed_file_storage.NodeDetail.{
  skeleton, telemetry, failed, render_telemetry, update_telemetry,
}
use distributed_file_storage.NodeDetail.Laws.{Untouched, update_telemetry-eq-render}
use distributed_file_storage.NodeDetail.Texts.{
  TelemetryTexts, telemetry_texts, pulse_text, updated_texts-Tell,
}
use distributed_file_storage.Formats.{DetailedTimestamp}
use distributed_file_storage.Formats.Ages.{Tells}
use distributed_file_storage.Shell.{new, find_node, begin_open, finish_open, close_node_detail}
use distributed_file_storage.Shell.Drawer.{open_outcomes, late_reply_overwrites}
use distributed_file_storage.Shell.Events.{Event, begin, reply, beat, run, Tracks, run-Tracks}
use distributed_file_storage.Shell.Return.{close-last_opener}

-- The element 7 has the focus, and 7 and 8 are in the page.
abbrev page : Document
page = record { active_element = some 7; attached = 7 ∷ 8 ∷ []; grants_focus = λ e. true }

abbrev beating : NodeHeartbeatState
beating = fresh no_port 20 "nodeB" node_b

abbrev detail_a : NodeDetailResponse
detail_a = record {
  node = record node_b { id = "nodeA"; state = leader };
  term = some 9;
  commit_index = some 77;
  peers = none;
}

abbrev detail_b : NodeDetailResponse
detail_b = record { node = node_b; term = some 9; commit_index = some 77; peers = none }

open_outcomes_example :
    let (opened, cached) = begin_open no_port 5 page [] "nodeB" new in
    let ended = finish_open no_port 5 cached (resolved detail_b) opened in
    let missed = finish_open no_port 5 cached (rejected offline_error) opened in
    (opened.panel ≡ skeleton "nodeB")
    × (ended.panel
        ≡ telemetry "nodeB"
            (render_telemetry no_port 5 "nodeB" (some detail_b) ended.selected_node_latency))
    × (missed.panel ≡ failed "nodeB" "Failed to fetch")
unfolding new find_node
open_outcomes_example =
    open_outcomes no_port 5 page [] "nodeB" new detail_b offline_error refl refl refl

late_reply_overwrites_example :
    let (s₁, cached_a) = begin_open no_port 5 page [] "nodeA" new in
    let (s₂, cached_b) = begin_open no_port 5 page [] "nodeB" s₁ in
    let s₃ = finish_open no_port 5 cached_b (resolved detail_b) s₂ in
    let s₄ = finish_open no_port 5 cached_a (resolved detail_a) s₃ in
    (s₄.selected_node_id ≡ some "nodeB")
    × (s₄.selected_node_detail ≡ some detail_a)
    × (s₄.panel
        ≡ telemetry "nodeB"
            (render_telemetry no_port 5 "nodeB" (some detail_a) s₄.selected_node_latency))
late_reply_overwrites_example =
    late_reply_overwrites no_port 5 page [] "nodeA" "nodeB" new detail_a detail_b refl

abbrev visit : List Event
visit =
    begin 5 page [] "nodeB" ∷ reply 6 none (resolved detail_b) ∷ beat 7 false (beating ∷ []) ∷ []

run-Tracks_example : Tracks (run no_port visit new)
run-Tracks_example = run-Tracks no_port visit

abbrev waiting : List Event
waiting = reply 6 none (resolved detail_b) ∷ beat 7 false (beating ∷ []) ∷ []

-- The drawer is opened from the element 7, and again from 8.
close-last_opener_example :
    let s =
      run no_port
        (begin 5 (record page { active_element = some 8 }) [] "nodeB" ∷ waiting)
        (run no_port visit new) in
    let (s', page') = close_node_detail no_port 9 page s in
    (page' ≡ (if has 8 page.attached then focus 8 page else page))
    × (get_previous_focus s'.focus_manager ≡ none)
close-last_opener_example =
    close-last_opener no_port visit waiting 5 9 (record page { active_element = some 8 }) page []
      "nodeB" 8 tt refl

update_telemetry-eq-render_example :
    (update_telemetry no_port 6 "nodeB"
        (some detail_b)
        none
        (render_telemetry no_port 5 "nodeB" (some detail_a) none)
      ≡ render_telemetry no_port 6 "nodeB" (some detail_b) none)
    ↔ Untouched
        (render_telemetry no_port 5 "nodeB" (some detail_a) none)
        (render_telemetry no_port 6 "nodeB" (some detail_b) none)
update_telemetry-eq-render_example =
    update_telemetry-eq-render no_port 6 "nodeB" (some detail_b) none
      (render_telemetry no_port 5 "nodeB" (some detail_a) none)

abbrev button : ℕ → Element
button id = record {
  id = id;
  matches = true;
  offset_width = 10;
  offset_height = 10;
  client_rects = 1;
  in_tab_order = true;
}

abbrev drawer : Container
drawer = record { self = 1; descendants = button 3 ∷ button 5 ∷ [] }

-- A browser that goes from 3 to 5 and back.
abbrev moved : Bool → Option ℕ → Option ℕ
moved shift none = none
moved false (some e) = if e == 3 then some 5 else some e
moved true (some e) = if e == 5 then some 3 else some e

abbrev natural : Bool → Document → Document
natural shift d = record d { active_element = moved shift d.active_element }

drawer-TabOrder : TabOrder (get_focusable_elements drawer) natural
unfolding get_focusable_elements
drawer-TabOrder = record { forward = forward; backward = backward; keeps = λ shift d. refl }
  where
    forward :
        (d : Document) (i : ℕ)
        → d.active_element ≡ get_elem? (3 ∷ 5 ∷ []) i
        → suc i < 2
        → (natural false d).active_element ≡ get_elem? (3 ∷ 5 ∷ []) (suc i)
    forward d zero e within = ap (moved false) e
    forward d (suc i) e within = absurd (omega arith)

    backward :
        (d : Document) (i : ℕ)
        → d.active_element ≡ get_elem? (3 ∷ 5 ∷ []) (suc i)
        → suc i < 2
        → (natural true d).active_element ≡ get_elem? (3 ∷ 5 ∷ []) i
    backward d zero e within = ap (moved true) e
    backward d (suc i) e within = absurd (omega arith)

press_all-walk_example :
    let es = get_focusable_elements drawer in
    let shifts = true ∷ true ∷ false ∷ [] in
    ((press_all drawer natural shifts (record page { active_element = some 3 })).active_element
      ≡ get_elem? es (walk (length es) shifts 0))
    × (walk (length es) shifts 0 < length es)
unfolding get_focusable_elements
press_all-walk_example =
    press_all-walk drawer natural (true ∷ true ∷ false ∷ []) 0
      (record page { active_element = some 3 }) drawer-TabOrder
      ((λ e. omega (arith, e), tt), (tt, tt)) (λ e. omega (arith, e), (λ e. omega (arith, e), tt))
      (refl, (refl, tt)) (omega arith) refl

abbrev iso : ℕ → String
iso ms = "2026-01-02T03:04:05.000Z"

-- A pulse, and the time a minute later.
abbrev pulse_time : ℕ
pulse_time = 1767323045000

abbrev later : ℕ
later = 1767323105000

abbrev pulsing : NodeDetailResponse
pulsing = record detail_b { node = record node_b { last_heartbeat = pulse_time } }

abbrev written : TelemetryTexts
written = telemetry_texts iso later (
    update_telemetry no_port later "nodeB" (some pulsing) (some 84)
      (render_telemetry no_port 5 "nodeB" (some detail_b) none))

updated_texts-Tell_example :
    (written
      ≡ telemetry_texts iso later (render_telemetry no_port later "nodeB" (some pulsing) (some 84)))
    × (shown : DetailedTimestamp) × (written.hb_relative ≡ pulse_text shown)
    × Tells ((later - pulse_time) / 1000) shown.relative
updated_texts-Tell_example =
    updated_texts-Tell iso no_port later "nodeB" pulsing (some 84)
      (render_telemetry no_port 5 "nodeB" (some detail_b) none) (omega arith) (omega arith)
