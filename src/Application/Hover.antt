-- ===== src/Application/Hover.antt =====
-- The listeners of frontend/src/main.ts for the mouse: a row of the table and the lane of the same node light
-- up together. A selected one is left alone, whatever its inline style.
use distributed_file_storage.Prelude.{
  String, str_eq, ◌≡◌, refl, sym, Bool, true, false, Bool-cases, inl, inr, not, ◌&&◌, ◌||◌, Option,
  none, some, List, [], ◌∷◌, map, if◌then◌else◌, truthy, truthy?, or_else, All,
}

-- A lane or a row: its `data-node`, whether it has the class of the selected one, and its inline style. The
-- aliases are the key and the displayed name of its node, by which a selection also reaches a lane.
pub record Mark : Type 0 where
  pub node : Option String
  pub aliases : List String
  pub selected : Bool
  pub border_color : String
  pub background_color : String

pub record Marks : Type 0 where
  pub lanes : List Mark
  pub rows : List Mark

abbrev is_node : String → Option String → Bool
is_node id none = false
is_node id (some n) = str_eq n id

abbrev lane_style : Bool → Mark → Mark
lane_style true m = record m {
  border_color = "var(--color-line-bright)";
  background_color = "var(--color-surface-hover)";
}
lane_style false m = record m { border_color = ""; background_color = "" }

abbrev row_style : Bool → Mark → Mark
row_style active m = record m {
  background_color = if active then "var(--color-surface-hover)" else "";
}

abbrev is_free : String → Mark → Bool
is_free id m = is_node id m.node && not m.selected

unfoldable pub highlight_lane : String → Bool → List Mark → List Mark
highlight_lane id active lanes = map (λ m. if is_free id m then lane_style active m else m) lanes

unfoldable pub highlight_row : String → Bool → List Mark → List Mark
highlight_row id active rows = map (λ m. if is_free id m then row_style active m else m) rows

-- `row` and `lane` are the `data-node` of the closest one to the mouse.
unfoldable pub highlight : Bool → Option String → Option String → Marks → Marks
unfolding highlight_lane highlight_row
highlight active row lane m =
    if truthy? row
    then record m { lanes = highlight_lane (or_else row "") active m.lanes }
    else if truthy? lane
    then record m { rows = highlight_row (or_else lane "") active m.rows }
    else m

abbrev pub on_mouse_over : Option String → Option String → Marks → Marks
on_mouse_over = highlight true

abbrev pub on_mouse_out : Option String → Option String → Marks → Marks
on_mouse_out = highlight false

abbrev is_any : String → List String → Bool
is_any id [] = false
is_any id (t ∷ ts) = str_eq id t || is_any id ts

abbrev means : String → Mark → Bool
means id m = is_node id m.node || is_any id m.aliases

abbrev is_selected : Option String → Mark → Bool
is_selected none m = false
is_selected (some id) m = truthy id && means id m

abbrev with_selected : Bool → Mark → Mark
with_selected b m = record m { selected = b }

-- The classes of the lanes under a selection, as updateHeartbeatRailDOM of
-- frontend/src/components/HeartbeatRail.ts sets them.
unfoldable pub select_lanes : Option String → Marks → Marks
select_lanes id m = record m { lanes = map (λ l. with_selected (is_selected id l) l) m.lanes }

-- A mark that is not selected and has no inline style.
abbrev pub IsBare : Mark → Type 0
IsBare m = (m.selected ≡ false) × (m.border_color ≡ "") × (m.background_color ≡ "")

lane_mark :
    (id : String) (m : Mark)
    → IsBare m
    → (let over = if is_free id m then lane_style true m else m in
        if is_free id over then lane_style false over else over)
      ≡ m
lane_mark id m (idle, border, background) = elim (Bool-cases (is_free id m)) [
  | inl e ↦
      rw e
        (rw e (λ j. record m { border_color = sym border j; background_color = sym background j }))
  | inr e ↦ rw e (rw e refl)
]

row_mark :
    (id : String) (m : Mark)
    → IsBare m
    → (let over = if is_free id m then row_style true m else m in
        if is_free id over then row_style false over else over)
      ≡ m
row_mark id m (idle, border, background) = elim (Bool-cases (is_free id m)) [
  | inl e ↦ rw e (rw e (λ j. record m { background_color = sym background j }))
  | inr e ↦ rw e (rw e refl)
]

lane_back :
    (id : String) (ms : List Mark)
    → All IsBare ms
    → highlight_lane id false (highlight_lane id true ms) ≡ ms
unfolding highlight_lane
lane_back id [] bare = refl
lane_back id (m ∷ ms) (b, bare) = λ j. lane_mark id m b j ∷ lane_back id ms bare j

row_back :
    (id : String) (ms : List Mark)
    → All IsBare ms
    → highlight_row id false (highlight_row id true ms) ≡ ms
unfolding highlight_row
row_back id [] bare = refl
row_back id (m ∷ ms) (b, bare) = λ j. row_mark id m b j ∷ row_back id ms bare j

highlight_back :
    (row lane : Option String) (m : Marks)
    → All IsBare m.lanes
    → All IsBare m.rows
    → on_mouse_out row lane (on_mouse_over row lane m) ≡ m
unfolding highlight
highlight_back row lane m lanes rows = elim (Bool-cases (truthy? row)) [
  | inl r ↦ rw r (λ j. record m { lanes = lane_back (or_else row "") m.lanes lanes j })
  | inr r ↦ elim (Bool-cases (truthy? lane)) [
    | inl l ↦ rw r (rw l (λ j. record m { rows = row_back (or_else lane "") m.rows rows j }))
    | inr l ↦ rw r (rw l refl)
  ]
]

kept_mark :
    (id : String) (m : Mark)
    → m.selected ≡ false
    → (let over = if is_free id m then lane_style true m else m in
        let chosen = with_selected (means id over) over in
        with_selected false (if is_free id chosen then lane_style false chosen else chosen))
      ≡ (if is_free id m then lane_style true m else m)
kept_mark id m idle = elim (Bool-cases (is_node id m.node)) [
  | inl e ↦ rw e (rw idle (rw e refl))
  | inr e ↦ rw e (rw e (λ j. record m { selected = sym idle j }))
]

kept :
    (id : String) (ms : List Mark)
    → All IsBare ms
    → map (with_selected false) (
        highlight_lane id false
          (map (λ l. with_selected (means id l) l) (highlight_lane id true ms)))
      ≡ highlight_lane id true ms
unfolding highlight_lane
kept id [] bare = refl
kept id (m ∷ ms) ((idle, border, background), bare) = λ j. kept_mark id m idle j ∷ kept id ms bare j

kept_lanes :
    (id : String) (m : Marks)
    → truthy id ≡ true
    → All IsBare m.lanes
    → let over = record m { lanes = highlight_lane id true m.lanes } in
      let chosen = select_lanes (some id) over in
      select_lanes none (record chosen { lanes = highlight_lane id false chosen.lanes }) ≡ over
unfolding highlight_lane select_lanes
kept_lanes id m named bare = rw named λ j. record m { lanes = kept id m.lanes bare j }

-- From lanes and rows that are not selected and have no inline style: the mouse that comes and goes leaves
-- all as it was. But where it comes to the row of a named node, which is then selected, goes, and the
-- selection ends, the lanes of the node keep the style of the mouse.
pub hover_style :
    (row lane : Option String) (id : String) (m : Marks)
    → truthy id ≡ true
    → All IsBare m.lanes
    → All IsBare m.rows
    → (on_mouse_out row lane (on_mouse_over row lane m) ≡ m)
      × (select_lanes none
            (on_mouse_out (some id) none (select_lanes (some id) (on_mouse_over (some id) none m)))
          ≡ record m { lanes = highlight_lane id true m.lanes })
unfolding highlight
hover_style row lane id m named lanes rows =
    (highlight_back row lane m lanes rows, rw named (kept_lanes id m named lanes))
