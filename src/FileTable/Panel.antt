-- ===== src/FileTable/Panel.antt =====
-- The rendering of the whole panel of frontend/src/components/FilePanel.ts.
use distributed_file_storage.Prelude.{
  ℕ, String, Bool, true, false, Option, none, some, List, [], ◌∷◌, map, length, or_else, or_text,
  if◌then◌else◌, truthy?, codes, has_text,
}
use distributed_file_storage.Api.{
  FileInfo, ClusterState, healthy, operational, no_majority, is_no_majority,
}
use distributed_file_storage.Files.{UploadState, DownloadState, DeleteState, sum_sizes}
use distributed_file_storage.Heartbeat.Node.{NodeHeartbeatState}
use distributed_file_storage.NodeDetail.{ViewState, normal, loading, empty, error}
use distributed_file_storage.FileTable.Row.{Row, render_file_row}

pub data Notice : Type 0 where
  consensus_paused quorum_degraded : Notice

pub data UploadCard : Type 0 where
  uploading : (filename : String) (percent loaded total : ℕ) → UploadCard
  upload_failed : (filename error : String) → UploadCard

pub data Table : Type 0 where
  rows : List Row → Table
  no_match : (query : String) → Table
  nothing_stored : Table

-- The slot of the cards.
pub record Cards : Type 0 where
  pub upload : Option UploadCard
  pub download_error : Option String
  pub delete_error : Option String

-- The button of the toolbar; its title follows `disabled`. `faded` says which opacity and cursor its inline
-- style has, if any, and `background` whether the style has the colours of a button that works.
pub record UploadButton : Type 0 where
  pub disabled : Bool
  pub faded : Option Bool
  pub background : Bool

-- `count` is the number of files and of bytes in the heading, and `overlay_paused` chooses the badge and the
-- subtitle of the overlay for a drop.
pub record View : Type 0 where
  pub count : ℕ × ℕ
  pub notice : Option Notice
  pub search : String
  pub upload_button : UploadButton
  pub overlay_paused : Bool
  pub cards : Cards
  pub table : Table

pub data Panel : Type 0 where
  skeleton : Panel
  nothing :
      (notice : Option Notice) (upload_button : UploadButton) (overlay_paused : Bool)
      → Cards
      → Panel
  failed : (message : String) → Panel
  shown : View → Panel

-- The arguments of the renderer.
pub record Props : Type 0 where
  pub files : List FileInfo
  pub total_files : Option ℕ
  pub total_size_bytes : Option ℕ
  pub search_query : String
  pub upload : Option UploadState
  pub download : Option DownloadState
  pub delete : Option DeleteState
  pub nodes : List NodeHeartbeatState
  pub cluster : Option ClusterState

unfoldable pub render_cluster_notice_banner : Option ClusterState → Option Notice
render_cluster_notice_banner (some no_majority) = some consensus_paused
render_cluster_notice_banner (some operational) = some quorum_degraded
render_cluster_notice_banner (some healthy) = none
render_cluster_notice_banner none = none

-- An error that is absent or empty makes no card.
abbrev pub told : Option String → Option String
told e = if truthy? e then e else none

abbrev failed_card : String → Option String → Option UploadCard
failed_card name none = none
failed_card name (some e) = some (upload_failed name e)

-- `uploadBtnDisabled`, `uploadBtnTitle` and `uploadBtnStyle`
abbrev pub render_upload_button : Bool → UploadButton
render_upload_button true = record { disabled = true; faded = some true; background = false }
render_upload_button false = record { disabled = false; faded = none; background = true }

unfoldable pub render_upload_progress : Option UploadState → Option UploadCard
render_upload_progress none = none
render_upload_progress (some u) =
    if u.is_uploading
    then some (uploading u.filename u.percent u.loaded_bytes u.total_bytes)
    else failed_card u.filename (told u.error)

unfoldable pub render_download_error : Option DownloadState → Option String
render_download_error none = none
render_download_error (some d) = told d.error

unfoldable pub render_delete_error : Option DeleteState → Option String
render_delete_error none = none
render_delete_error (some d) = told d.error

abbrev pub cards_of : Props → Cards
cards_of p = record {
  upload = render_upload_progress p.upload;
  download_error = render_download_error p.download;
  delete_error = render_delete_error p.delete;
}

abbrev pub count_of : Props → ℕ × ℕ
count_of p =
    (or_else p.total_files (length p.files), or_else p.total_size_bytes (sum_sizes p.files))

abbrev pub rows_of : Props → List Row
rows_of p = map (render_file_row p.download p.delete p.nodes p.cluster) p.files

-- `searchQuery.trim().length > 0`
abbrev pub is_searching : Props → Bool
is_searching p = has_text (codes p.search_query)

abbrev pub view_of : Props → Table → View
view_of p table = record {
  count = count_of p;
  notice = render_cluster_notice_banner p.cluster;
  search = p.search_query;
  upload_button = render_upload_button (is_no_majority p.cluster);
  overlay_paused = is_no_majority p.cluster;
  cards = cards_of p;
  table = table;
}

unfoldable pub render_file_panel_empty : Props → Panel
render_file_panel_empty p =
    let paused = is_no_majority p.cluster in
    nothing (render_cluster_notice_banner p.cluster) (render_upload_button paused) paused
      (cards_of p)

abbrev pub render_normal : List FileInfo → Props → Panel
render_normal [] p =
    if is_searching p
    then shown (view_of p (no_match p.search_query))
    else render_file_panel_empty p
render_normal (f ∷ fs) p = shown (view_of p (rows (rows_of p)))

unfoldable pub render_file_panel : ViewState → Option String → Props → Panel
unfolding render_file_panel_empty
render_file_panel loading message p = skeleton
render_file_panel empty message p = render_file_panel_empty p
render_file_panel error message p = failed (
    or_text message
      "Unable to retrieve file ledger: Coordinator at port 8000 is unreachable or storage replica index is unavailable.")
render_file_panel normal message p = render_normal p.files p
