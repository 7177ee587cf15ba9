-- ===== src/Application/Selection/Keys.antt =====
-- The keyboard's way into the drawer of frontend/src/main.ts and out of it again.
use distributed_file_storage.Prelude.{
  ℕ, String, ◌≡◌, refl, ap, ◌∙◌, true, false, Bool-cases, inl, inr, Option, none, some, [], ◌∷◌,
  ◌++◌, truthy, truthy?, if◌then◌else◌,
}
use distributed_file_storage.NodeDetail.{closed, render_node_detail_panel}
use distributed_file_storage.Focus.{
  Container, captured, focus, capture_active_focus, restored, restore_previous_focus,
}
use distributed_file_storage.Runtime.Listeners.{has}
use distributed_file_storage.Shell.{
  begin_open, detail_props, close_node_detail, render_node_detail_container,
}
use distributed_file_storage.Shell.Return.{restored-some}
use distributed_file_storage.Application.{Browser, open_detail, close_detail}
use distributed_file_storage.Application.Selection.{
  Session, Target, node_detail, escape, enter, has_selection, opening, closing, select_node,
  on_main_keydown, on_window_keydown, on_keydown,
}

module _ (w : Browser) where
  closing-idle : (now : ℕ) (s : Session) → has_selection (closing w now s) ≡ false
  unfolding close_detail close_node_detail render_node_detail_container
  closing-idle now s = refl

  -- Escape goes through the listener of the page and that of the window: where a node is selected, it closes
  -- the drawer once and is handled, and where none is selected, it does nothing.
  pub escape_closes_once :
      (now : ℕ) (panel : Option Container) (t : Target) (s : Session)
      → on_keydown w now panel escape t s
        ≡ (if has_selection s then closing w now s else record s { prevented = false })
  unfolding on_keydown on_main_keydown on_window_keydown
  escape_closes_once now panel t s = elim (Bool-cases (has_selection s)) [
    | inl e ↦ rw e (rw (closing-idle now (record s { prevented = false })) refl)
    | inr e ↦ rw e (rw e refl)
  ]

  enter-opens :
      (now : ℕ) (panel : Option Container) (t : Target) (s : Session) (id : String)
      → t.row ≡ some id
      → truthy id ≡ true
      → on_keydown w now panel enter t s ≡ opening w now id (record s { prevented = false })
  unfolding on_keydown on_main_keydown on_window_keydown select_node
  enter-opens now panel t s id row named = rw row (rw named refl)

  escape-closes :
      (now : ℕ) (panel : Option Container) (t : Target) (s : Session) (id : String)
      → s.application.shell.selected_node_id ≡ some id
      → truthy id ≡ true
      → on_keydown w now panel escape t s ≡ closing w now s
  escape-closes now panel t s id selected named =
      escape_closes_once now panel t s
      ∙ ap (λ b. if b then closing w now s else record s { prevented = false })
          (ap truthy? selected ∙ named)

  opening-selected :
      (now : ℕ) (id : String) (s : Session)
      → (opening w now id s).application.shell.selected_node_id ≡ some id
  unfolding open_detail begin_open render_node_detail_container
  opening-selected now id s = refl

  opening-focus :
      (now : ℕ) (id : String) (s : Session) (opener : ℕ)
      → s.application.document.active_element ≡ some opener
      → (opening w now id s).application.shell.focus_manager
        ≡ record { previous_focus = some opener }
  unfolding open_detail begin_open render_node_detail_container capture_active_focus
  opening-focus now id s opener active =
      ap (λ a. captured a s.application.shell.focus_manager) active

  closing-ends :
      (now : ℕ) (s : Session)
      → let a = (closing w now s).application in
        (a.shell.selected_node_id ≡ none)
        × (a.shell.panel ≡ closed)
        × (a.document
            ≡ (restored s.application.shell.focus_manager.previous_focus s.application.document).0)
  unfolding close_detail close_node_detail render_node_detail_container restore_previous_focus
      render_node_detail_panel detail_props
  closing-ends now s = (refl, refl, refl)

  -- Enter on a row of a named node, while an element has the focus, selects the node and begins one request,
  -- for it. Escape after that, when replies and results may have changed everything but the selection and the
  -- element that is remembered, closes the drawer, begins no request, and gives the focus back to the element
  -- if it is still in the page.
  pub enter_then_escape :
      (now now' : ℕ) (panel panel' : Option Container) (t t' : Target) (s mid : Session)
      (id : String) (opener : ℕ)
      → t.row ≡ some id
      → truthy id ≡ true
      → s.application.document.active_element ≡ some opener
      → let opened = on_keydown w now panel enter t s in
        mid.application.shell.selected_node_id ≡ opened.application.shell.selected_node_id
        → mid.application.shell.focus_manager ≡ opened.application.shell.focus_manager
        → let opened = on_keydown w now panel enter t s in
          let ended = on_keydown w now' panel' escape t' mid in
          let d = mid.application.document in
          (opened.application.shell.selected_node_id ≡ some id)
          × (opened.requests ≡ s.requests ++ node_detail id ∷ [])
          × (ended.application.shell.selected_node_id ≡ none)
          × (ended.application.shell.panel ≡ closed)
          × (ended.requests ≡ mid.requests)
          × (ended.application.document ≡ (if has opener d.attached then focus opener d else d))
  enter_then_escape now now' panel panel' t t' s mid id opener row named active same_id same_focus =
      let opened = enter-opens now panel t s id row named in
      let ready = record s { prevented = false } in
      let selected =
        ap (λ s. s.application.shell.selected_node_id) opened ∙ opening-selected now id ready in
      let remembered =
        same_focus
        ∙ ap (λ s. s.application.shell.focus_manager) opened
        ∙ opening-focus now id ready opener active in
      let ended = escape-closes now' panel' t' mid id (same_id ∙ selected) named in
      let (none_left, shut, page) = closing-ends now' mid in
      (
        selected,
        ap (λ s. s.requests) opened,
        ap (λ s. s.application.shell.selected_node_id) ended ∙ none_left,
        ap (λ s. s.application.shell.panel) ended ∙ shut,
        ap (λ s. s.requests) ended,
        ap (λ s. s.application.document) ended
            ∙ page
            ∙ ap (λ m. (restored m.previous_focus mid.application.document).0) remembered
            ∙ restored-some opener mid.application.document,
      )
