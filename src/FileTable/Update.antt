-- ===== src/FileTable/Update.antt =====
-- The update in place of the panel of frontend/src/components/FilePanel.ts. A status in the signature of the
-- table is the word that the server sends.
use distributed_file_storage.Prelude.{
  String, str_eq, ◌≡◌, ◌≢◌, refl, sym, ap, ◌∙◌, Bool, true, false, Bool-cases, inl, inr, Option,
  none, some, List, [], ◌∷◌, map, or_else, or_text, ◌↔◌, ◌⊎◌, if◌then◌else◌, template, decimal,
  eq_iff,
}
use distributed_file_storage.Api.{
  FileInfo, FileStatus, replicated, syncing, degraded, corrupted, ClusterState, healthy,
  operational, no_majority, is_no_majority, NodeState, leader, follower, candidate, NodeStatus,
  online, offline,
}
use distributed_file_storage.Files.{DownloadState, DeleteState}
use distributed_file_storage.Heartbeat.Node.{NodeHeartbeatState}
use distributed_file_storage.NodeDetail.{normal}
use distributed_file_storage.FileTable.Panel.{
  UploadButton, render_upload_button, Panel, shown, View, Props, Table, rows, no_match,
  nothing_stored, rows_of, is_searching, view_of, render_normal, render_file_panel,
}

-- What the module keeps between updates, and the panel.
pub record FilePanel : Type 0 where
  pub signature : String
  pub panel : Panel

abbrev pub join : String → List String → String
join sep [] = ""
join sep (s ∷ []) = s
join sep (s ∷ t ∷ rest) = template (s ∷ sep ∷ join sep (t ∷ rest) ∷ [])

abbrev pub role_text : NodeState → String
role_text leader = "LEADER"
role_text follower = "FOLLOWER"
role_text candidate = "CANDIDATE"

abbrev pub status_text : NodeStatus → String
status_text online = "ONLINE"
status_text offline = "OFFLINE"

abbrev file_status_text : FileStatus → String
file_status_text replicated = "REPLICATED"
file_status_text syncing = "SYNCING"
file_status_text degraded = "DEGRADED"
file_status_text corrupted = "CORRUPTED"

abbrev pub cluster_text : Option ClusterState → String
cluster_text none = ""
cluster_text (some healthy) = "HEALTHY"
cluster_text (some operational) = "OPERATIONAL"
cluster_text (some no_majority) = "NO MAJORITY"

unfoldable pub node_signature : List NodeHeartbeatState → String
node_signature nodes =
    join ";"
      (map (λ n. template (n.id ∷ ":" ∷ status_text n.status ∷ ":" ∷ role_text n.state ∷ [])) nodes)

abbrev downloading_id : Option DownloadState → String
downloading_id none = ""
downloading_id (some d) = if d.is_downloading then d.file_id else ""

abbrev confirming_id : Option DeleteState → String
confirming_id none = ""
confirming_id (some d) = or_text d.confirming_file_id ""

-- A template text shows an identity that is absent as the word.
abbrev deleting_id : Option DeleteState → String
deleting_id none = ""
deleting_id (some d) = if d.is_deleting then or_else d.file_id "undefined" else ""

unfoldable pub action_signature : Option DownloadState → Option DeleteState → String
action_signature download delete = template (
    "d:"
    ∷ downloading_id download
    ∷ "|c:"
    ∷ confirming_id delete
    ∷ "|del:"
    ∷ deleting_id delete
    ∷ [])

unfoldable pub file_signature : FileInfo → String
file_signature f = template (
    f.file_id
    ∷ ":"
    ∷ f.name
    ∷ ":"
    ∷ decimal f.size
    ∷ ":"
    ∷ file_status_text f.status
    ∷ ":"
    ∷ join "," f.replicas
    ∷ ":"
    ∷ decimal (or_else f.modified_at 0)
    ∷ [])

unfoldable pub table_signature : Props → String
unfolding node_signature action_signature file_signature
table_signature p = template (
    p.search_query
    ∷ "#"
    ∷ cluster_text p.cluster
    ∷ "#"
    ∷ action_signature p.download p.delete
    ∷ "#"
    ∷ node_signature p.nodes
    ∷ "#"
    ∷ join "|" (map file_signature p.files)
    ∷ [])

abbrev pub table_of : List FileInfo → Props → Table
table_of [] p = if is_searching p then no_match p.search_query else nothing_stored
table_of (f ∷ fs) p = rows (rows_of p)

abbrev restyled : (paused disabled : Bool) → UploadButton → UploadButton
restyled true true b = b
restyled false false b = b
restyled paused _ b = record b { disabled = paused; faded = some paused }

-- The title goes with `disabled`; the style is written only where that changes, and keeps its background.
unfoldable pub update_upload_button : Bool → UploadButton → UploadButton
update_upload_button paused b = restyled paused b.disabled b

-- `search_focused` says that the search field has the focus, so that its text is left alone. The overlay is
-- left as it is.
abbrev pub update_view : Bool → Props → Table → View → View
update_view search_focused p table v = record (view_of p table) {
  search = if search_focused then v.search else p.search_query;
  upload_button = update_upload_button (is_no_majority p.cluster) v.upload_button;
  overlay_paused = v.overlay_paused;
}

abbrev table_in : Table → Panel → Table
table_in t (shown v) = v.table
table_in t _ = t

abbrev button_in : UploadButton → Panel → UploadButton
button_in b (shown v) = v.upload_button
button_in b _ = b

abbrev overlay_in : Bool → Panel → Bool
overlay_in o (shown v) = v.overlay_paused
overlay_in o _ = o

-- A panel without the table or the count is rendered anew, and the signature is forgotten.
abbrev pub update_panel : Bool → Props → String → Panel → FilePanel
update_panel search_focused p old (shown v) =
    let signature = table_signature p in
    let table = if str_eq signature old then v.table else table_of p.files p in
    record { signature = signature; panel = shown (update_view search_focused p table v) }
update_panel search_focused p old _ = record {
  signature = "";
  panel = render_file_panel normal none p;
}

unfoldable pub update_file_panel_dom : Bool → Props → FilePanel → FilePanel
unfolding render_file_panel
update_file_panel_dom search_focused p m = update_panel search_focused p m.signature m.panel

-- There is a table for the props: some file, or a search.
abbrev pub HasTable : Props → Type 0
HasTable p = (p.files ≢ []) ⊎ (is_searching p ≡ true)

render_normal-table :
    (fs : List FileInfo) (p : Props)
    → (fs ≢ []) ⊎ (is_searching p ≡ true)
    → render_normal fs p ≡ shown (view_of p (table_of fs p))
render_normal-table [] p (inl some_file) = absurd (some_file refl)
render_normal-table [] p (inr searching) = rw searching
render_normal-table (f ∷ fs) p h = refl

-- The button is what it is drawn as, or it worked but without the background of one that works, and stops.
abbrev pub IsKeptButton : Bool → UploadButton → Type 0
IsKeptButton paused b =
    (b ≡ render_upload_button paused)
    ⊎ ((paused ≡ true) × (b.disabled ≡ false) × (b.background ≡ false))

restyled_iff :
    (paused disabled : Bool) (b : UploadButton)
    → b.disabled ≡ disabled
    → (restyled paused disabled b ≡ render_upload_button paused) ↔ IsKeptButton paused b
restyled_iff true true b same =
    (λ e. inl e, λ h. elim h [ inl e ↦ e | inr (_, off, _) ↦ absurd (cc) ])
restyled_iff false false b same =
    (λ e. inl e, λ h. elim h [ inl e ↦ e | inr (on, _, _) ↦ absurd (cc) ])
restyled_iff true false b same = (
  λ e. inr (refl, same, ap (λ x. x.background) e),
  λ h. elim h [
    | inl e ↦ let d = ap (λ x. x.disabled) e in absurd (cc)
    | inr (_, _, plain) ↦ λ i. record { disabled = true; faded = some true; background = plain i }
  ],
)
restyled_iff false true b same = (
  λ e. let f = ap (λ x. x.faded) e in absurd (cc),
  λ h. elim h [
    | inl e ↦ let d = ap (λ x. x.disabled) e in absurd (cc)
    | inr (on, _, _) ↦ absurd (cc)
  ],
)

update_upload_button_iff :
    (paused : Bool) (b : UploadButton)
    → (update_upload_button paused b ≡ render_upload_button paused) ↔ IsKeptButton paused b
unfolding update_upload_button
update_upload_button_iff paused b = restyled_iff paused b.disabled b refl

update_view_iff :
    (p : Props) (t t' : Table) (v : View)
    → (shown (update_view false p t v) ≡ shown (view_of p t'))
      ↔ (t ≡ t')
        × IsKeptButton (is_no_majority p.cluster) v.upload_button
        × (v.overlay_paused ≡ is_no_majority p.cluster)
update_view_iff p t t' v =
    let paused = is_no_majority p.cluster in
    let button = update_upload_button_iff paused v.upload_button in
    (
      λ e. (
        ap (table_in t) e,
        button.0 (ap (button_in v.upload_button) e),
        ap (overlay_in paused) e,
      ),
      λ (same, kept, overlay). λ i. shown (record (view_of p (same i)) {
        upload_button = button.1 kept i;
        overlay_paused = overlay i;
      }),
    )

drawn_iff :
    (signature old : String) (t t' : Table)
    → ((if str_eq signature old then t else t') ≡ t') ↔ ((signature ≢ old) ⊎ (t ≡ t'))
drawn_iff signature old t t' = elim (Bool-cases (str_eq signature old)) [
  | inl same ↦ rw same (
    λ e. inr e,
    λ h. elim h [ inl differ ↦ absurd (differ ((eq_iff signature old).0 same)) | inr e ↦ e ],
  )
  | inr other ↦ rw other (λ e. inl (λ h. let agree = (eq_iff signature old).1 h in cc), λ h. refl)
]

-- For props with a file or a search, and outside a text entry: the update in place of a panel that shows its
-- table makes it what a fresh rendering of the same props is exactly if the signature of the table is another
-- than the one kept, or the rows that are there are those of the props already; if the button for uploads is
-- as it would be drawn, or worked without its background and is disabled now; and if the overlay, which the
-- update leaves as it is, already tells whether the majority is lost.
pub update_file_panel-eq-render :
    (p : Props) (signature : String) (v : View)
    → HasTable p
    → ((update_file_panel_dom false p (record { signature = signature; panel = shown v })).panel
        ≡ render_file_panel normal none p)
      ↔ (((table_signature p ≢ signature) ⊎ (v.table ≡ table_of p.files p))
          × IsKeptButton (is_no_majority p.cluster) v.upload_button
          × (v.overlay_paused ≡ is_no_majority p.cluster))
unfolding update_file_panel_dom
update_file_panel-eq-render p signature v has_table =
    let fresh = render_normal-table p.files p has_table in
    let drawn = drawn_iff (table_signature p) signature v.table (table_of p.files p) in
    let view = update_view_iff p _ (table_of p.files p) v in
    (
      λ e. let (table, button, overlay) = view.0 (e ∙ fresh) in (drawn.0 table, button, overlay),
      λ (h, button, overlay). view.1 (drawn.1 h, button, overlay) ∙ sym fresh,
    )
