-- ===== src/Heartbeat/Window.antt =====
-- The length of the pulse histories.
use distributed_file_storage.Prelude.{
  ℕ, ◌≤◌, String, str_eq, ap, Bool-cases, inl, inr, Option, none, some, List, [], ◌∷◌, ◌≡◌, refl,
  sym, subst, ◌∙◌, arith, length, length-append, length-replicate, All, or_else,
}
use distributed_file_storage.Api.{
  NodesResponse, NodeInfo, Outcome, resolved, rejected, Reply, Thrown,
}
use distributed_file_storage.Heartbeat.Node.{
  NodeHeartbeatState, PulseTickType, ok, missed, slide, beat, lose, fresh, normalize_node_key,
}
use distributed_file_storage.Heartbeat.NodeMap.{get, values, put-All, get-All}
use distributed_file_storage.Heartbeat.{
  HeartbeatService, Nodes, settle, update_node, update_nodes, lose_all, or_list, with_writes,
  replaced_by,
}
use distributed_file_storage.Heartbeat.Polls.{poll_all}

-- A window that holds as many ticks as the maximum or more keeps its length.
slide-length :
    (most : ℕ) (h : List PulseTickType) (t : PulseTickType)
    → most ≤ length h
    → length (slide most h t) ≡ length h
unfolding slide
slide-length most [] t full = ground arith
slide-length most (x ∷ h) t full = ground (arith, length-append h (t ∷ []))

abbrev pub HasWindow : ℕ → NodeHeartbeatState → Type 0
HasWindow k n = length n.history ≡ k

abbrev pub AllWindows : ℕ → Nodes → Type 0
AllWindows k m = All (λ e. HasWindow k e.1) m

lose-HasWindow :
    (most k : ℕ) (n : NodeHeartbeatState) → most ≤ k → HasWindow k n → HasWindow k (lose most n)
unfolding lose
lose-HasWindow most k n within h = slide-length most n.history missed (omega arith) ∙ h

lose_all-AllWindows :
    (most k : ℕ) (m : Nodes) → most ≤ k → AllWindows k m → AllWindows k (lose_all most m)
unfolding lose_all
lose_all-AllWindows most k [] within h = tt
lose_all-AllWindows most k ((key, n) ∷ m) within (w, h) =
    (lose-HasWindow most k n within w, lose_all-AllWindows most k m within h)

values-AllWindows : (k : ℕ) (m : Nodes) → AllWindows k m → All (HasWindow k) (values m)
values-AllWindows k [] h = tt
values-AllWindows k (e ∷ m) (w, h) = (w, values-AllWindows k m h)

or_list-All :
    (k : ℕ) (xs ys : List NodeHeartbeatState)
    → All (HasWindow k) xs
    → All (HasWindow k) ys
    → All (HasWindow k) (or_list xs ys)
or_list-All k [] ys h h' = h'
or_list-All k (x ∷ xs) ys h h' = h

replaced_by-history :
    (n : NodeHeartbeatState) (ms : List NodeHeartbeatState) → (replaced_by n ms).history ≡ n.history
replaced_by-history n [] = refl
replaced_by-history n (m ∷ ms) = elim (Bool-cases (str_eq m.id n.id)) [
  | inl e ↦ rw e refl
  | inr e ↦ rw e (replaced_by-history n ms)
]

with_writes-HasWindow :
    (k : ℕ) (ns : List NodeHeartbeatState)
    → All (HasWindow k) ns
    → All (HasWindow k) (with_writes ns)
unfolding with_writes
with_writes-HasWindow k [] h = tt
with_writes-HasWindow k (n ∷ ns) (w, h) =
    (ap length (replaced_by-history n ns) ∙ w, with_writes-HasWindow k ns h)

module _ (url_port : String → Option String) where
  update_node-AllWindows :
      (k latency now : ℕ) (raw : NodeInfo) (m : Nodes)
      → AllWindows k m
      → let (n, m') = update_node url_port k latency now raw m in HasWindow k n × AllWindows k m'
  unfolding update_node
  update_node-AllWindows k latency now raw m h = (here, put-All (HasWindow k) _ _ m here h)
    where
      key : String
      key = normalize_node_key raw.id

      known :
          (o : Option NodeHeartbeatState)
          → get key m ≡ o
          → HasWindow k (or_else o (fresh url_port k key raw))
      known none e = length-replicate k ok
      known (some n) e = get-All (HasWindow k) key m h e

      before : HasWindow k (or_else (get key m) (fresh url_port k key raw))
      before = known (get key m) refl

      here :
          HasWindow k
            (beat url_port k latency now raw key (or_else (get key m) (fresh url_port k key raw)))
      here = unfold beat in slide-length k _ _ (omega (arith, before)) ∙ before

  update_nodes-AllWindows :
      (k latency now : ℕ) (raws : List NodeInfo) (m : Nodes)
      → AllWindows k m
      → let (ns, m') = update_nodes url_port k latency now raws m in
        All (HasWindow k) ns × AllWindows k m'
  unfolding update_nodes
  update_nodes-AllWindows k latency now [] m h = (tt, h)
  update_nodes-AllWindows k latency now (raw ∷ raws) m h =
      let first = update_node-AllWindows k latency now raw m h in
      let rest =
        update_nodes-AllWindows k latency now raws (update_node url_port k latency now raw m).1
          first.1 in
      ((first.0, rest.0), rest.1)

  settle-AllWindows :
      (o : Outcome NodesResponse) (latency now : ℕ) (s : HeartbeatService)
      → AllWindows s.max_history_ticks s.node_map
      → let t = settle url_port o latency now s in
        AllWindows s.max_history_ticks t.node_map
        × All (HasWindow s.max_history_ticks) t.last_result.nodes
        × (t.max_history_ticks ≡ s.max_history_ticks)
  unfolding settle
  settle-AllWindows (resolved response) latency now s h =
      let k = s.max_history_ticks in
      let (shown, kept) =
        update_nodes-AllWindows k latency now (or_else response.nodes []) s.node_map h in
      (kept, or_list-All k _ _ (with_writes-HasWindow k _ shown) (values-AllWindows k _ kept), refl)
  settle-AllWindows (rejected err) latency now s h =
      let k = s.max_history_ticks in
      let kept = lose_all-AllWindows k k s.node_map (omega arith) h in
      (kept, values-AllWindows k _ kept, refl)

  -- Where every node's history is as long as the window at first (as it is in a new service), then
  -- after any sequence of one or more polls, however they end, every history in the map and in the
  -- result shown has exactly that many ticks.
  pub heartbeat_window :
      (r : Reply NodesResponse) (rs : List (Reply NodesResponse)) (s : HeartbeatService)
      → AllWindows s.max_history_ticks s.node_map
      → let t = poll_all url_port (r ∷ rs) s in
        AllWindows s.max_history_ticks t.node_map
        × All (HasWindow s.max_history_ticks) t.last_result.nodes
  unfolding poll_all
  heartbeat_window r [] s h =
      let (kept, shown, _) = settle-AllWindows r.outcome r.latency r.now s h in (kept, shown)
  heartbeat_window r (q ∷ rs) s h =
      let (kept, shown, same) = settle-AllWindows r.outcome r.latency r.now s h in
      let t = settle url_port r.outcome r.latency r.now s in
      let later = poll_all url_port (q ∷ rs) t in
      subst (λ k. AllWindows k later.node_map × All (HasWindow k) later.last_result.nodes) same
        (heartbeat_window q rs t (subst (λ k. AllWindows k t.node_map) (sym same) kept))

-- A poll that failed.
abbrev pub IsRejected : Reply NodesResponse → Type 0
IsRejected r = (e : Thrown) × (r.outcome ≡ rejected e)

module _ (url_port : String → Option String) where
  settle-rejected :
      (o : Outcome NodesResponse) (e : Thrown) (latency now k : ℕ) (s : HeartbeatService)
      → o ≡ rejected e
      → s.max_history_ticks ≤ k
      → AllWindows k s.node_map
      → let t = settle url_port o latency now s in
        AllWindows k t.node_map × (t.max_history_ticks ≡ s.max_history_ticks)
  unfolding settle
  settle-rejected (resolved response) e latency now k s same within h = cc
  settle-rejected (rejected err) e latency now k s same within h =
      (lose_all-AllWindows s.max_history_ticks k s.node_map within h, refl)

  -- Where the histories are longer than the window, as they are when `startPolling` has set a smaller
  -- maximum, no number of failed polls brings them down to it: each keeps exactly its length.
  pub heartbeat_window_not_shrunk :
      (rs : List (Reply NodesResponse)) (k : ℕ) (s : HeartbeatService)
      → s.max_history_ticks ≤ k
      → AllWindows k s.node_map
      → All IsRejected rs
      → AllWindows k (poll_all url_port rs s).node_map
  unfolding poll_all
  heartbeat_window_not_shrunk [] k s within h failed = h
  heartbeat_window_not_shrunk (r ∷ rs) k s within h ((e, same), failed) =
      let (kept, most) = settle-rejected r.outcome e r.latency r.now k s same within h in
      heartbeat_window_not_shrunk rs k (settle url_port r.outcome r.latency r.now s)
        (omega (arith, most)) kept failed
