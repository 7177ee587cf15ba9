-- ===== src/FileTable/Row.antt =====
-- A row of the table of frontend/src/components/FilePanel.ts.
use distributed_file_storage.Prelude.{
  ℕ, String, str_eq, Bool, true, false, not, ◌&&◌, ◌||◌, Option, none, some, List, [], ◌∷◌, map,
  filter, length, ltb, ◌==◌, or_text, if◌then◌else◌,
}
use distributed_file_storage.Api.{
  FileInfo, FileStatus, corrupted, syncing, ClusterState, is_no_majority,
}
use distributed_file_storage.Files.{DownloadState, DeleteState}
use distributed_file_storage.Heartbeat.Node.{NodeHeartbeatState}
use distributed_file_storage.FileTable.{
  Target, a, b, c, ReplicaNodeInfo, has_replica, find_node_for_target,
}

-- The badge of a row with the numbers and the names in its text and its title.
pub data Badge : Type 0 where
  corrupted_badge : (reachable out_of : ℕ) → Badge
  syncing_badge : (reachable stored : ℕ) → Badge
  unreachable_badge : (stored : ℕ) (offline : List String) → Badge
  degraded_badge : (reachable stored : ℕ) (offline : List String) → Badge
  replicated_badge : Badge
  short_badge : (status : FileStatus) (reachable stored : ℕ) → Badge

pub data Pill : Type 0 where
  missing : (id : String) → Pill
  offline_pill : (id : String) → Pill
  active : (id : String) (is_leader : Bool) → Pill

pub data Actions : Type 0 where
  confirming : Actions
  offered : (download_disabled is_downloading delete_disabled is_deleting : Bool) → Actions

-- `file_id` is the `data-file-id` of the buttons.
pub record Row : Type 0 where
  pub file_id : String
  pub name : String
  pub size : ℕ
  pub badge : Badge
  pub pills : List Pill
  pub modified_at : Option ℕ
  pub actions : Actions

abbrev store : Bool → ReplicaNodeInfo → List ReplicaNodeInfo → List ReplicaNodeInfo
store true n rest = n ∷ rest
store false n rest = rest

-- The nodes that store a replica.
unfoldable pub stored_replicas : FileInfo → List NodeHeartbeatState → List ReplicaNodeInfo
stored_replicas f nodes = store (has_replica f.replicas a) (find_node_for_target nodes a) (
    store (has_replica f.replicas b) (find_node_for_target nodes b)
      (store (has_replica f.replicas c) (find_node_for_target nodes c) []))

abbrev pub reachable_of : List ReplicaNodeInfo → ℕ
reachable_of stored = length (filter (λ n. n.is_online) stored)

abbrev pub offline_of : List ReplicaNodeInfo → List String
offline_of stored = map (λ n. n.id) (filter (λ n. not n.is_online) stored)

-- The ladder below the two states that the file itself reports.
abbrev pub reach_badge : FileStatus → List ReplicaNodeInfo → Badge
reach_badge status stored =
    let reachable = reachable_of stored in
    let total = length stored in
    let missing = offline_of stored in
    if reachable == 0 && ltb 0 total
    then unreachable_badge total missing
    else if ltb 0 (length missing)
    then degraded_badge reachable total missing
    else if total == 3
    then replicated_badge
    else short_badge status reachable total

unfoldable pub badge_of : FileStatus → List ReplicaNodeInfo → Badge
badge_of corrupted stored =
    let total = length stored in
    corrupted_badge (reachable_of stored) (if total == 0 then 3 else total)
badge_of syncing stored = syncing_badge (reachable_of stored) (length stored)
badge_of status stored = reach_badge status stored

unfoldable pub render_replica_pill : Bool → ReplicaNodeInfo → Pill
render_replica_pill has n =
    if not has
    then missing n.id
    else if not n.is_online
    then offline_pill n.id
    else active n.id n.is_leader

abbrev same? : Option String → String → Bool
same? none s = false
same? (some t) s = str_eq t s

abbrev is_file : Option String → FileInfo → Bool
is_file id f = same? id f.file_id || same? id f.name

unfoldable pub is_downloading : Option DownloadState → FileInfo → Bool
is_downloading none f = false
is_downloading (some d) f =
    d.is_downloading && (str_eq d.file_id f.file_id || same? d.filename f.name)

unfoldable pub is_confirming : Option DeleteState → FileInfo → Bool
is_confirming none f = false
is_confirming (some d) f = is_file d.confirming_file_id f

unfoldable pub is_deleting : Option DeleteState → FileInfo → Bool
is_deleting none f = false
is_deleting (some d) f = d.is_deleting && is_file d.file_id f

unfoldable pub render_file_row :
    Option DownloadState
    → Option DeleteState
    → List NodeHeartbeatState
    → Option ClusterState
    → FileInfo
    → Row
unfolding stored_replicas badge_of render_replica_pill is_downloading is_confirming is_deleting
render_file_row download delete nodes cluster f =
    let stored = stored_replicas f nodes in
    let pill = λ (t : Target).
      render_replica_pill (has_replica f.replicas t) (find_node_for_target nodes t) in
    let downloading = is_downloading download f in
    let deleting = is_deleting delete f in
    record {
      file_id = or_text (some f.file_id) f.name;
      name = f.name;
      size = f.size;
      badge = badge_of f.status stored;
      pills = pill a ∷ pill b ∷ pill c ∷ [];
      modified_at = f.modified_at;
      actions =
          if is_confirming delete f
          then confirming
          else offered (downloading || deleting || reachable_of stored == 0) downloading
              (downloading || deleting || is_no_majority cluster) deleting;
    }
