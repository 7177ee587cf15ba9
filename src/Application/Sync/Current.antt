-- ===== src/Application/Sync/Current.antt =====
-- Whether the table of the files keeps up with the services, though the listeners of frontend/src/main.ts pass
-- an update on only where they see a change.
use distributed_file_storage.Prelude.{
  ℕ, str_eq, ◌≡◌, refl, sym, ap, ◌∙◌, Bool, false, Bool-cases, inl, inr, List, [], ◌∷◌, eq_iff, not,
  ◌||◌,
}
use distributed_file_storage.Heartbeat.{HeartbeatRailResult}
use distributed_file_storage.NodeDetail.{normal}
use distributed_file_storage.FileTable.Panel.{shown, View}
use distributed_file_storage.FileTable.Update.{table_of, table_signature, node_signature}
use distributed_file_storage.Shell.{is_normal}
use distributed_file_storage.Shell.Keeps.{on_heartbeats-IsKept}
use distributed_file_storage.Application.Sync.Kept.{
  IsKept, IsDrawn, IsDrawn-IsKept, same_state-eq, table_signature-nodes, update-IsDrawn,
  IsDrawn-transfer,
}
use distributed_file_storage.Application.{state_of, props_of, Application, Browser, update_nodes}
use distributed_file_storage.Application.Sync.{
  same_state, is_idle, dispatch_cluster, dispatch_nodes, Event, health_result, cluster_result,
  heartbeat_result, file_result, listen, listen_all, on_cluster_result, on_heartbeat_result,
  on_file_result, on_health_result, with_drawer, with_header,
}

abbrev pub IsCurrent : Application → Type 0
IsCurrent a =
    (state_of a.latest.cluster ≡ a.last_dispatched_cluster_state)
    × (node_signature a.latest.heartbeats.nodes ≡ a.last_dispatched_node_signature)
    × IsDrawn a.latest a.file_panel

-- The normal view is shown.
abbrev pub IsLive : Application → Type 0
IsLive a = (a.shell.current_view_state ≡ normal) × IsCurrent a

module _ (search_focused : Bool) (a : Application) (view : a.shell.current_view_state ≡ normal)
    (kept : IsKept a.file_panel) where
  dispatch_cluster-IsLive :
      node_signature a.latest.heartbeats.nodes ≡ a.last_dispatched_node_signature
      → (state_of a.latest.cluster ≡ a.last_dispatched_cluster_state
          → IsDrawn a.latest a.file_panel)
      → IsLive (dispatch_cluster search_focused a)
  dispatch_cluster-IsLive nodes drawn =
      elim (Bool-cases (same_state (state_of a.latest.cluster) a.last_dispatched_cluster_state)) [
        | inl e ↦
            let same =
              same_state-eq (state_of a.latest.cluster) a.last_dispatched_cluster_state e in
            rw e (view, (same, nodes, drawn same))
        | inr e ↦
            rw e (view, (refl, nodes, update-IsDrawn search_focused a.latest a.file_panel kept))
      ]

  dispatch_nodes-IsLive :
      state_of a.latest.cluster ≡ a.last_dispatched_cluster_state
      → (node_signature a.latest.heartbeats.nodes ≡ a.last_dispatched_node_signature
          → IsDrawn a.latest a.file_panel)
      → IsLive (dispatch_nodes search_focused a)
  dispatch_nodes-IsLive state drawn =
      let now = node_signature a.latest.heartbeats.nodes in
      elim (Bool-cases (str_eq now a.last_dispatched_node_signature)) [
        | inl e ↦
            let same = (eq_iff now a.last_dispatched_node_signature).0 e in
            rw e (view, (state, same, drawn same))
        | inr e ↦
            rw e (view, (state, refl, update-IsDrawn search_focused a.latest a.file_panel kept))
      ]

pub is_idle-normal :
    (a : Application) → a.shell.current_view_state ≡ normal → is_idle false a ≡ false
is_idle-normal a view = ap (λ v. not (is_normal v) || false) view

module _ (w : Browser) where
  with_drawer-IsLive :
      (now : ℕ) (r : HeartbeatRailResult) (a : Application)
      → IsLive a
      → IsLive (with_drawer w false now r a)
  with_drawer-IsLive now r a (view, current) =
      ((on_heartbeats-IsKept w.url_port now false r.nodes a.shell).1 ∙ view, current)

  listen-IsLive : (e : Event) (a : Application) → IsLive a → IsLive (listen w false e a)
  unfolding on_health_result on_cluster_result on_heartbeat_result on_file_result
  listen-IsLive (health_result r) a (view, current) = (view, current)
  listen-IsLive (file_result search_focused r) a (view, (state, nodes, drawn)) =
      let l = record a.latest { files = r } in
      rw (is_idle-normal a view) (
        view,
        (
          state,
          nodes,
          update-IsDrawn search_focused l a.file_panel (IsDrawn-IsKept a.latest a.file_panel drawn),
        ),
      )
  listen-IsLive (cluster_result search_focused r) a (view, (state, nodes, drawn)) =
      let l = record a.latest { cluster = r } in
      rw (is_idle-normal a view) (
        dispatch_cluster-IsLive search_focused (with_header w false r a) view
          (IsDrawn-IsKept a.latest a.file_panel drawn) nodes
          (λ same.
            IsDrawn-transfer a.latest l a.file_panel
              (ap (λ s. table_signature (record (props_of a.latest) { cluster = s }))
                (state ∙ sym same))
              drawn))
  listen-IsLive (heartbeat_result now search_focused r) a (view, (state, nodes, drawn)) =
      let l = record a.latest { heartbeats = r } in
      let listed = update_nodes w now r.nodes a.shell.selected_node_id (record a { latest = l }) in
      rw (is_idle-normal a view) (
        with_drawer-IsLive now r (dispatch_nodes search_focused listed) (
          dispatch_nodes-IsLive search_focused listed view
            (IsDrawn-IsKept a.latest a.file_panel drawn) state
            (λ same.
              IsDrawn-transfer a.latest l a.file_panel
                (sym (table_signature-nodes (props_of a.latest) r.nodes (same ∙ sym nodes)))
                drawn)))

  listen_all-IsLive :
      (es : List Event) (a : Application) → IsLive a → IsLive (listen_all w false es a)
  listen_all-IsLive [] a live = live
  listen_all-IsLive (e ∷ es) a live =
      listen_all-IsLive es (listen w false e a) (listen-IsLive e a live)

  -- In the normal view, without an error, from a table that is drawn for what the services tell, before any
  -- update of it, and with the cluster state and the node signature that were last passed on being the current
  -- ones: after any results of the services, in any order, the table shows the rows of props that have the
  -- signature of what the services tell then.
  pub listen_all-IsDrawn :
      (es : List Event) (a : Application) (v : View)
      → a.shell.current_view_state ≡ normal
      → state_of a.latest.cluster ≡ a.last_dispatched_cluster_state
      → node_signature a.latest.heartbeats.nodes ≡ a.last_dispatched_node_signature
      → a.file_panel ≡ record { signature = ""; panel = shown v }
      → v.table ≡ table_of a.latest.files.files (props_of a.latest)
      → let b = listen_all w false es a in IsDrawn b.latest b.file_panel
  listen_all-IsDrawn es a v view state nodes panel table =
      let live = listen_all-IsLive es a (
        view,
        (
          state,
          nodes,
          (
            v,
            props_of a.latest,
            ap (λ f. f.panel) panel,
            table,
            refl,
            inl (ap (λ f. f.signature) panel),
          ),
        ),
      ) in
      live.1.2
