-- ===== src/FileTable/Ladder.antt =====
-- What a row of the table says of its replicas.
use distributed_file_storage.Prelude.{
  suc, ◌≡◌, ◌≢◌, ◌↔◌, ◌⊎◌, refl, sym, ap, ◌∙◌, Bool, true, false, Bool-cases, inl, inr, Option,
  none, some, List, [], ◌∷◌, length, arith, All,
}
use distributed_file_storage.Api.{
  FileInfo, FileStatus, replicated, degraded, corrupted, syncing, ClusterState, is_no_majority,
  healthy, operational, no_majority, NodeStatus, online, offline, is_online,
}
use distributed_file_storage.Files.{DownloadState, DeleteState}
use distributed_file_storage.Heartbeat.Node.{NodeHeartbeatState}
use distributed_file_storage.FileTable.{
  Target, a, b, c, ReplicaNodeInfo, has_replica, find_node_for_target, find_target, is_target,
  shown_name,
}
use distributed_file_storage.FileTable.Row.{
  replicated_badge, stored_replicas, reachable_of, offline_of, reach_badge, badge_of, offered,
  is_confirming, is_downloading, is_deleting, render_file_row,
}

abbrev pub IsUp : ReplicaNodeInfo → Type 0
IsUp n = n.is_online ≡ true

offline_of-IsUp :
    (stored : List ReplicaNodeInfo) → (length (offline_of stored) ≡ 0) ↔ All IsUp stored
offline_of-IsUp [] = (λ e. tt, λ h. refl)
offline_of-IsUp (n ∷ ns) = let ih = offline_of-IsUp ns in ground (arith, ih)

reachable_of-IsUp :
    (stored : List ReplicaNodeInfo) → All IsUp stored → reachable_of stored ≡ length stored
reachable_of-IsUp [] h = refl
reachable_of-IsUp (n ∷ ns) (up, h) = rw up (ap suc (reachable_of-IsUp ns h))

reach_badge-replicated :
    (status : FileStatus) (stored : List ReplicaNodeInfo)
    → (reach_badge status stored ≡ replicated_badge) ↔ ((length stored ≡ 3) × All IsUp stored)
reach_badge-replicated status stored =
    let clear = offline_of-IsUp stored in
    let whole = reachable_of-IsUp stored in ground (arith, clear, whole)

length-store :
    (f : FileInfo) (nodes : List NodeHeartbeatState)
    → (length (stored_replicas f nodes) ≡ 3) ↔ (
        (has_replica f.replicas a ≡ true)
        × (has_replica f.replicas b ≡ true)
        × (has_replica f.replicas c ≡ true))
unfolding stored_replicas
length-store f nodes = ground arith

All-store :
    (f : FileInfo) (nodes : List NodeHeartbeatState)
    → has_replica f.replicas a ≡ true
    → has_replica f.replicas b ≡ true
    → has_replica f.replicas c ≡ true
    → All IsUp (stored_replicas f nodes) ↔ (
        IsUp (find_node_for_target nodes a)
        × IsUp (find_node_for_target nodes b)
        × IsUp (find_node_for_target nodes c))
unfolding stored_replicas
All-store f nodes p q r =
    rw (p, q, r) (λ (x, (y, (z, _))). (x, y, z), λ (x, y, z). (x, (y, (z, tt))))

-- The target's node, the first of the list that has its name, is online; a target without one counts too.
abbrev pub IsServing : Target → List NodeHeartbeatState → Type 0
IsServing t [] = Unit
IsServing t (n ∷ ns) =
    ((is_target t (shown_name n) ≡ true) × (n.status ≡ online))
    ⊎ ((is_target t (shown_name n) ≡ false) × IsServing t ns)

is_online_iff : (s : NodeStatus) → (is_online s ≡ true) ↔ (s ≡ online)
is_online_iff online = (λ e. refl, λ e. refl)
is_online_iff offline = (λ e. absurd (cc), λ e. absurd (cc))

IsServing-found :
    (t : Target) (ns : List NodeHeartbeatState) → IsUp (find_node_for_target ns t) ↔ IsServing t ns
unfolding find_node_for_target find_target
IsServing-found t [] = (λ e. tt, λ h. refl)
IsServing-found t (n ∷ ns) =
    let up = is_online_iff n.status in
    let ih = IsServing-found t ns in
    elim (Bool-cases (is_target t (shown_name n))) [
      | inl e ↦ rw e (
        λ on. inl (refl, up.0 on),
        λ h. elim h [ inl (_, on) ↦ up.1 on | inr (differs, _) ↦ absurd (cc) ],
      )
      | inr e ↦ rw e (
        λ on. inr (refl, ih.0 on),
        λ h. elim h [ inl (named, _) ↦ absurd (cc) | inr (_, rest) ↦ ih.1 rest ],
      )
    ]

-- The target stores a replica of the file and its node is online.
abbrev pub IsReachable : FileInfo → List NodeHeartbeatState → Target → Type 0
IsReachable f nodes t = (has_replica f.replicas t ≡ true) × IsServing t nodes

abbrev IsStored : FileInfo → List NodeHeartbeatState → Target → Type 0
IsStored f nodes t = (has_replica f.replicas t ≡ true) × IsUp (find_node_for_target nodes t)

IsStored-IsReachable :
    (f : FileInfo) (nodes : List NodeHeartbeatState) (t : Target)
    → IsStored f nodes t ↔ IsReachable f nodes t
IsStored-IsReachable f nodes t =
    let found = IsServing-found t nodes in
    (λ (has, up). (has, found.0 up), λ (has, up). (has, found.1 up))

badge_of-replicated :
    (status : FileStatus) (stored : List ReplicaNodeInfo)
    → status ≢ corrupted
    → status ≢ syncing
    → badge_of status stored ≡ reach_badge status stored
unfolding badge_of
badge_of-replicated replicated stored p q = refl
badge_of-replicated degraded stored p q = refl
badge_of-replicated corrupted stored p q = absurd (p refl)
badge_of-replicated syncing stored p q = absurd (q refl)

-- A file that is neither corrupted nor syncing is shown as replicated exactly if each of the three targets
-- stores it and the first node of that target's name is online or there is none, whatever the file's own status
-- says.
pub replicated_iff :
    (download : Option DownloadState) (delete : Option DeleteState)
    (nodes : List NodeHeartbeatState) (cluster : Option ClusterState) (f : FileInfo)
    → f.status ≢ corrupted
    → f.status ≢ syncing
    → ((render_file_row download delete nodes cluster f).badge ≡ replicated_badge)
      ↔ (IsReachable f nodes a × IsReachable f nodes b × IsReachable f nodes c)
unfolding render_file_row
replicated_iff download delete nodes cluster f p q =
    let ladder = reach_badge-replicated f.status (stored_replicas f nodes) in
    let same = badge_of-replicated f.status (stored_replicas f nodes) p q in
    let stores = length-store f nodes in
    let at = IsStored-IsReachable f nodes in
    (
      λ e.
          let (three, up) = ladder.0 (sym same ∙ e) in
          let (x, y, z) = stores.0 three in
          let (u, v, w) = (All-store f nodes x y z).0 up in
          ((at a).0 (x, u), (at b).0 (y, v), (at c).0 (z, w)),
      λ (r, s, t).
          let (x, u) = (at a).1 r in
          let (y, v) = (at b).1 s in
          let (z, w) = (at c).1 t in
          same ∙ ladder.1 (stores.1 (x, y, z), (All-store f nodes x y z).1 (u, v, w)),
    )

-- Some target stores the file and its node is online.
abbrev pub HasReachable : FileInfo → List NodeHeartbeatState → Type 0
HasReachable f nodes = IsReachable f nodes a ⊎ IsReachable f nodes b ⊎ IsReachable f nodes c

stored_replicas-HasReachable :
    (f : FileInfo) (nodes : List NodeHeartbeatState)
    → (reachable_of (stored_replicas f nodes) ≢ 0) ↔ HasReachable f nodes
unfolding stored_replicas
stored_replicas-HasReachable f nodes =
    let at_a = IsServing-found a nodes in
    let at_b = IsServing-found b nodes in
    let at_c = IsServing-found c nodes in ground (arith, at_a, at_b, at_c)

is_no_majority_iff :
    (cluster : Option ClusterState) → (is_no_majority cluster ≡ true) ↔ (cluster ≡ some no_majority)
is_no_majority_iff none = (λ e. absurd (cc), λ e. absurd (cc))
is_no_majority_iff (some healthy) = (λ e. absurd (cc), λ e. absurd (cc))
is_no_majority_iff (some operational) = (λ e. absurd (cc), λ e. absurd (cc))
is_no_majority_iff (some no_majority) = (λ e. refl, λ e. refl)

-- For a file that is not being downloaded, deleted or confirmed for deletion: with a replica on a target whose
-- first node of that name is online, or that has none, both its buttons work but for the deletion, which
-- is disabled if the cluster has lost its majority; without one the download is disabled too, and the deletion
-- as before.
pub idle_row_offers :
    (download : Option DownloadState) (delete : Option DeleteState)
    (nodes : List NodeHeartbeatState) (cluster : Option ClusterState) (f : FileInfo)
    → is_confirming delete f ≡ false
    → is_downloading download f ≡ false
    → is_deleting delete f ≡ false
    → let actions = (render_file_row download delete nodes cluster f).actions in
      (paused : Bool) × ((paused ≡ true) ↔ (cluster ≡ some no_majority))
      × (HasReachable f nodes → actions ≡ offered false false paused false)
      × (¬ HasReachable f nodes → actions ≡ offered true false paused false)
unfolding render_file_row
idle_row_offers download delete nodes cluster f p q r =
    let some_store = stored_replicas-HasReachable f nodes in
    rw (p, q, r)
      (
        is_no_majority cluster,
        is_no_majority_iff cluster,
        λ has. ground (arith, some_store, has),
        λ without. ground (arith, some_store, without),
      )
