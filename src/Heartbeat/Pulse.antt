-- ===== src/Heartbeat/Pulse.antt =====
-- What the rail shows after a poll.
use distributed_file_storage.Prelude.{
  ℕ, suc, String, str_eq, false, Option, none, some, List, [], ◌∷◌, map, ◌≡◌, ◌≢◌, refl, ap, ◌∙◌,
  arith, or_else, Bool-cases, inl, inr,
}
use distributed_file_storage.Api.{
  NodesResponse, NodeInfo, NodeState, NodeStatus, offline, Outcome, resolved, rejected, Reply,
  Thrown, message_or,
}
use distributed_file_storage.Heartbeat.Node.{NodeHeartbeatState, beat, lose, normalize_node_key}
use distributed_file_storage.Heartbeat.NodeMap.{
  get, put, values, keys, get-put, put-IsKeyed, IsKeyed,
}
use distributed_file_storage.Heartbeat.{
  HeartbeatService, Nodes, settle, update_node, update_nodes, lose_all, with_writes, replaced_by,
}
use distributed_file_storage.Heartbeat.Polls.{poll_all}

-- What a row of the rail says of its node.
abbrev pub Row : Type 0
Row = String × NodeState × NodeStatus × ℕ

abbrev pub row : NodeHeartbeatState → Row
row n = (n.display_name, n.state, n.status, n.last_heartbeat)

abbrev pub entry : NodeInfo → Row
entry raw = (raw.id, raw.state, raw.status, raw.last_heartbeat)

-- A node that could not be reached: offline, without a pulse, with one more miss.
abbrev pub IsLost : NodeHeartbeatState → NodeHeartbeatState → Type 0
IsLost before after =
    (after.status ≡ offline)
    × (after.is_pulsing ≡ false)
    × (after.consecutive_missed ≡ suc before.consecutive_missed)
    × (after.display_name ≡ before.display_name)

abbrev pub AllLost : List NodeHeartbeatState → List NodeHeartbeatState → Type 0
AllLost [] [] = Unit
AllLost (b ∷ bs) (a ∷ as') = IsLost b a × AllLost bs as'
AllLost _ _ = ⊥

lose_all-keys : (most : ℕ) (m : Nodes) → keys (lose_all most m) ≡ keys m
unfolding lose_all
lose_all-keys most [] = refl
lose_all-keys most ((k, n) ∷ m) = ap (λ ks. k ∷ ks) (lose_all-keys most m)

lose_all-AllLost : (most : ℕ) (m : Nodes) → AllLost (values m) (values (lose_all most m))
unfolding lose_all lose
lose_all-AllLost most [] = tt
lose_all-AllLost most ((k, n) ∷ m) = ((refl, refl, refl, refl), lose_all-AllLost most m)

lose_all-keeps :
    (most : ℕ) (key : String) (m : Nodes) → get key m ≢ none → get key (lose_all most m) ≢ none
unfolding lose_all get
lose_all-keeps most key [] h = h
lose_all-keeps most key ((k, n) ∷ m) h = elim (Bool-cases (str_eq k key)) [
  | inl same ↦ rw same (λ e. cc)
  | inr other ↦ rw other (lose_all-keeps most key m (rw other at h))
]

replaced_by-row :
    (n : NodeHeartbeatState) (ms : List NodeHeartbeatState) → row (replaced_by n ms) ≡ row n
replaced_by-row n [] = refl
replaced_by-row n (m ∷ ms) = elim (Bool-cases (str_eq m.id n.id)) [
  | inl e ↦ rw e refl
  | inr e ↦ rw e (replaced_by-row n ms)
]

with_writes-rows : (ns : List NodeHeartbeatState) → map row (with_writes ns) ≡ map row ns
unfolding with_writes
with_writes-rows [] = refl
with_writes-rows (n ∷ ns) = λ i. replaced_by-row n ns i ∷ with_writes-rows ns i

module _ (url_port : String → Option String) where
  update_nodes-rows :
      (most latency now : ℕ) (raws : List NodeInfo) (m : Nodes)
      → map row (update_nodes url_port most latency now raws m).0 ≡ map entry raws
  unfolding update_nodes beat
  update_nodes-rows most latency now [] m = refl
  update_nodes-rows most latency now (raw ∷ raws) m =
      ap (λ rows. entry raw ∷ rows)
        (update_nodes-rows most latency now raws (update_node url_port most latency now raw m).1)

  update_nodes-keeps :
      (most latency now : ℕ) (key : String) (raws : List NodeInfo) (m : Nodes)
      → get key m ≢ none
      → get key (update_nodes url_port most latency now raws m).1 ≢ none
  unfolding update_nodes
  update_nodes-keeps most latency now key [] m h = h
  update_nodes-keeps most latency now key (raw ∷ raws) m h =
      update_nodes-keeps most latency now key raws (update_node url_port most latency now raw m).1
        (unfold update_node in λ e. h (missing e))
    where
      node : NodeHeartbeatState
      node = (update_node url_port most latency now raw m).0

      missing : get key (put (normalize_node_key raw.id) node m) ≡ none → get key m ≡ none
      missing e = ground (arith, get-put (normalize_node_key raw.id) key node m)

  update_nodes-IsKeyed :
      (most latency now : ℕ) (raws : List NodeInfo) (m : Nodes)
      → IsKeyed m
      → IsKeyed (update_nodes url_port most latency now raws m).1
  unfolding update_nodes
  update_nodes-IsKeyed most latency now [] m h = h
  update_nodes-IsKeyed most latency now (raw ∷ raws) m h =
      update_nodes-IsKeyed most latency now raws _ (unfold update_node in put-IsKeyed _ _ m h)

  -- After a poll that succeeded with one entry or more, the rail shows exactly the entries of the
  -- response, in their order, with their roles, statuses and heartbeats, and no key stands twice in
  -- the map.
  pub heartbeat_shows_response :
      (raw : NodeInfo) (raws : List NodeInfo) (latency now : ℕ) (s : HeartbeatService)
      → IsKeyed s.node_map
      → let response : NodesResponse = record { nodes = some (raw ∷ raws) } in
        let t = settle url_port (resolved response) latency now s in
        (map row t.last_result.nodes ≡ map entry (raw ∷ raws)) × IsKeyed t.node_map
  unfolding settle update_nodes with_writes
  heartbeat_shows_response raw raws latency now s h =
      let most = s.max_history_ticks in
      let updated = (update_nodes url_port most latency now (raw ∷ raws) s.node_map).0 in
      (
        with_writes-rows updated ∙ update_nodes-rows most latency now (raw ∷ raws) s.node_map,
        update_nodes-IsKeyed most latency now (raw ∷ raws) s.node_map h,
      )

  -- After a poll that failed, the rail shows every node of the map, in the map's order, as offline and
  -- without a pulse, each with one more miss; no node is added or lost, and the
  -- message of the failure is reported.
  pub heartbeat_failure_stalls_all :
      (err : Thrown) (latency now : ℕ) (s : HeartbeatService)
      → let t = settle url_port (rejected err) latency now s in
        AllLost (values s.node_map) t.last_result.nodes
        × (keys t.node_map ≡ keys s.node_map)
        × (t.last_result.reachable ≡ false)
        × (t.last_result.error ≡ some (message_or "Failed to query nodes" err))
  unfolding settle
  heartbeat_failure_stalls_all err latency now s = (
    lose_all-AllLost s.max_history_ticks s.node_map,
    lose_all-keys s.max_history_ticks s.node_map,
    refl,
    refl,
  )

  settle-keeps :
      (o : Outcome NodesResponse) (latency now : ℕ) (key : String) (s : HeartbeatService)
      → get key s.node_map ≢ none
      → get key (settle url_port o latency now s).node_map ≢ none
  unfolding settle
  settle-keeps (resolved response) latency now key s h =
      update_nodes-keeps s.max_history_ticks latency now key (or_else response.nodes []) s.node_map
        h
  settle-keeps (rejected err) latency now key s h =
      lose_all-keeps s.max_history_ticks key s.node_map h

  -- A node that is known stays known, however many polls follow and however they end, also where the
  -- responses leave it out.
  pub heartbeat_never_forgets :
      (rs : List (Reply NodesResponse)) (key : String) (s : HeartbeatService)
      → get key s.node_map ≢ none
      → get key (poll_all url_port rs s).node_map ≢ none
  unfolding poll_all
  heartbeat_never_forgets [] key s h = h
  heartbeat_never_forgets (r ∷ rs) key s h =
      heartbeat_never_forgets rs key _ (settle-keeps r.outcome r.latency r.now key s h)
