-- ===== src/Rail/Shows.antt =====
-- What the rail shows after an update in place.
use distributed_file_storage.Prelude.{
  String, str_eq, eq_iff, ◌≡◌, ◌≢◌, ◌⊎◌, inl, inr, refl, sym, subst, ap, ◌∙◌, true, false,
  Bool-cases, Option, Option-cases, some, List, [], ◌∷◌, map, All, truthy, or_text, if◌then◌else◌,
  is_some,
}
use distributed_file_storage.Heartbeat.Node.{NodeHeartbeatState}
use distributed_file_storage.Rail.{
  Lane, render_heartbeat_lane, update_lane, find_lane, set_lane, update_each,
  update_heartbeat_rail_dom, live_of,
}
use distributed_file_storage.Rail.Ticks.{update_ticks-eq-render}

abbrev pub AreDistinct : List NodeHeartbeatState → Type 0
AreDistinct [] = Unit
AreDistinct (n ∷ ns) = All (λ m. m.id ≢ n.id) ns × AreDistinct ns

abbrev pub IsNamed : NodeHeartbeatState → Type 0
IsNamed n = truthy n.display_name ≡ true

-- The node has a lane, which shows of it what a fresh rendering does.
abbrev pub Shows : Option String → List Lane → NodeHeartbeatState → Type 0
Shows selected lanes n =
    (l : Lane) × (find_lane n.id lanes ≡ some l)
    × (l.live ≡ (render_heartbeat_lane selected n).live)

or_text-named : (s d : String) → truthy s ≡ true → or_text (some s) d ≡ s
or_text-named String.[] d e = cc
or_text-named (String.◌∷◌ c s) d e = refl

update_lane-live :
    (selected : Option String) (n : NodeHeartbeatState) (l : Lane)
    → IsNamed n
    → (update_lane selected n l).live ≡ (render_heartbeat_lane selected n).live
unfolding update_lane render_heartbeat_lane
update_lane-live selected n l named = λ i.
    live_of selected (or_text-named n.display_name n.id named i)
      (update_ticks-eq-render n.history n.is_pulsing l.live.ticks i) n

ap_update :
    (selected : Option String) (n : NodeHeartbeatState) {x l : Lane}
    → some x ≡ some l
    → some (update_lane selected n x) ≡ some (update_lane selected n l)
ap_update selected n {x} {l} e = cc

str_eq-differ : (s t : String) → s ≢ t → str_eq s t ≡ false
str_eq-differ s t differ = elim (Bool-cases (str_eq s t)) [
  | inl same ↦ absurd (differ ((eq_iff s t).0 same))
  | inr other ↦ other
]

find_lane-set_lane :
    (selected : Option String) (n : NodeHeartbeatState) (ls : List Lane) (l : Lane)
    → find_lane n.id ls ≡ some l
    → find_lane n.id (set_lane selected n ls) ≡ some (update_lane selected n l)
unfolding update_lane
find_lane-set_lane selected n [] l found = cc
find_lane-set_lane selected n (x ∷ ls) l found = elim (Bool-cases (str_eq x.id n.id)) [
  | inl same ↦
      let e : some x ≡ some l = rw same at found in rw (same, same) (ap_update selected n e)
  | inr other ↦ rw (other, other) (find_lane-set_lane selected n ls l (rw other at found))
]

find_lane-set_lane_other :
    (selected : Option String) (n : NodeHeartbeatState) (id : String) (ls : List Lane)
    → n.id ≢ id
    → find_lane id (set_lane selected n ls) ≡ find_lane id ls
unfolding update_lane
find_lane-set_lane_other selected n id [] differ = refl
find_lane-set_lane_other selected n id (x ∷ ls) differ = elim (Bool-cases (str_eq x.id n.id)) [
  | inl same ↦
      let apart = str_eq-differ x.id id (λ e. differ (sym ((eq_iff x.id n.id).0 same) ∙ e)) in
      rw (same, apart)
  | inr other ↦ rw other (
      ap (λ r. if str_eq x.id id then some x else r)
        (find_lane-set_lane_other selected n id ls differ))
]

-- The loop either has drawn all lanes anew, or shows each of its nodes and has moved no other lane.
abbrev HasKept :
    Option String
    → List NodeHeartbeatState
    → List NodeHeartbeatState
    → List Lane
    → List Lane
    → Type 0
HasKept selected all ns lanes after =
    (after ≡ map (render_heartbeat_lane selected) all)
    ⊎ All (Shows selected after) ns
      × ((id : String) → All (λ n. n.id ≢ id) ns → find_lane id after ≡ find_lane id lanes)

HasKept-next :
    (selected : Option String) (all : List NodeHeartbeatState) (n : NodeHeartbeatState)
    (ns : List NodeHeartbeatState) (lanes : List Lane) (l : Lane) {after : List Lane}
    → All (λ m. m.id ≢ n.id) ns
    → IsNamed n
    → find_lane n.id lanes ≡ some l
    → HasKept selected all ns (set_lane selected n lanes) after
    → HasKept selected all (n ∷ ns) lanes after
HasKept-next selected all n ns lanes l apart name found (inl redrawn) = inl redrawn
HasKept-next selected all n ns lanes l apart name found (inr (shows, keeps)) = inr (
  (
    (
      update_lane selected n l,
      keeps n.id apart ∙ find_lane-set_lane selected n lanes l found,
      update_lane-live selected n l name,
    ),
    shows,
  ),
  λ id (differ, others). keeps id others ∙ find_lane-set_lane_other selected n id lanes differ,
)

HasKept-update_each :
    (selected : Option String) (all ns : List NodeHeartbeatState) (lanes : List Lane)
    → AreDistinct ns
    → All IsNamed ns
    → HasKept selected all ns lanes (update_each selected all ns lanes)
HasKept-update_each selected all [] lanes distinct named = inr (tt, λ id h. refl)
HasKept-update_each selected all (n ∷ ns) lanes (apart, distinct) (name, named) =
    let next = update_each selected all ns (set_lane selected n lanes) in
    let redraw = map (render_heartbeat_lane selected) all in
    let choose = λ (o : Option Lane). if is_some o then next else redraw in
    elim (Option-cases (find_lane n.id lanes)) [
      | inl missing ↦ inl (ap choose missing)
      | inr (l, found) ↦ subst (HasKept selected all (n ∷ ns) lanes) (sym (ap choose found)) (
          HasKept-next selected all n ns lanes l apart name found
            (HasKept-update_each selected all ns (set_lane selected n lanes) distinct named))
    ]

Shows-render :
    (selected : Option String) (n : NodeHeartbeatState) (ns : List NodeHeartbeatState)
    → Shows selected (map (render_heartbeat_lane selected) (n ∷ ns)) n
unfolding render_heartbeat_lane
Shows-render selected n ns =
    (render_heartbeat_lane selected n, rw ((eq_iff n.id n.id).1 refl), refl)

Shows-later :
    (selected : Option String) (n m : NodeHeartbeatState) (lanes : List Lane)
    → m.id ≢ n.id
    → Shows selected lanes m
    → Shows selected (render_heartbeat_lane selected n ∷ lanes) m
unfolding render_heartbeat_lane
Shows-later selected n m lanes differ (l, found, live) =
    (l, rw (str_eq-differ n.id m.id (λ e. differ (sym e))) found, live)

All-later :
    (selected : Option String) (n : NodeHeartbeatState) (ms : List NodeHeartbeatState)
    (lanes : List Lane)
    → All (λ m. m.id ≢ n.id) ms
    → All (Shows selected lanes) ms
    → All (Shows selected (render_heartbeat_lane selected n ∷ lanes)) ms
All-later selected n [] lanes apart shows = tt
All-later selected n (m ∷ ms) lanes (differ, apart) (first, rest) =
    (Shows-later selected n m lanes differ first, All-later selected n ms lanes apart rest)

All-render :
    (selected : Option String) (ns : List NodeHeartbeatState)
    → AreDistinct ns
    → All (Shows selected (map (render_heartbeat_lane selected) ns)) ns
All-render selected [] distinct = tt
All-render selected (n ∷ ns) (apart, distinct) = (
  Shows-render selected n ns,
  All-later selected n ns (map (render_heartbeat_lane selected) ns) apart
      (All-render selected ns distinct),
)

-- Whatever lanes there are, after an update with named nodes of distinct identities each of them has a lane,
-- which shows its status, role, selection, ticks, latency and port as a fresh rendering would.
pub update_heartbeat_rail-Shows :
    (selected : Option String) (nodes : List NodeHeartbeatState) (lanes : List Lane)
    → AreDistinct nodes
    → All IsNamed nodes
    → All (Shows selected (update_heartbeat_rail_dom selected nodes lanes)) nodes
unfolding update_heartbeat_rail_dom
update_heartbeat_rail-Shows selected nodes lanes distinct named =
    elim (HasKept-update_each selected nodes nodes lanes distinct named) [
      | inl redrawn ↦
          subst (λ ls. All (Shows selected ls) nodes) (sym redrawn)
            (All-render selected nodes distinct)
      | inr (shows, keeps) ↦ shows
    ]
