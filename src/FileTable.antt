-- ===== src/FileTable.antt =====
-- The panel of frontend/src/components/FilePanel.ts: its rows, banner and cards as data. A size and a time
-- that the panel formats are kept as they are, and of the titles the names that they list.
pub mod Row
pub mod Panel
pub mod Ladder
pub mod Update
pub mod Texts
use distributed_file_storage.Prelude.{
  ℕ, suc, String, str_eq, Bool, true, false, not, ◌&&◌, ◌||◌, Option, none, some, List, [], ◌∷◌,
  ◌++◌, map, filter, length, ltb, ◌==◌, is_some, or_else, or_text, if◌then◌else◌, codes, is_space,
  to_lower_case,
}
use distributed_file_storage.Api.{
  NodeState, NodeStatus, leader, follower, online, is_leader, is_online,
}
use distributed_file_storage.Heartbeat.Node.{NodeHeartbeatState}
use distributed_file_storage.NodeDetail.{same_codes, clean_id}

pub data Target : Type 0 where
  a b c : Target

abbrev pub letter : Target → String
letter a = "a"
letter b = "b"
letter c = "c"

abbrev number : Target → String
number a = "1"
number b = "2"
number c = "3"

-- The test that the replicas and the nodes share, on the name without spaces and its leading `node`.
abbrev pub is_target : Target → String → Bool
is_target t name =
    same_codes (clean_id name) (codes (letter t)) || same_codes (clean_id name) (codes (number t))

unfoldable pub has_replica : List String → Target → Bool
has_replica [] t = false
has_replica (r ∷ rs) t = is_target t r || has_replica rs t

pub record ReplicaNodeInfo : Type 0 where
  pub id : String
  pub is_online : Bool
  pub is_leader : Bool
  pub state : NodeState
  pub status : NodeStatus

-- `n.displayName || n.id`
abbrev pub shown_name : NodeHeartbeatState → String
shown_name n = or_text (some n.display_name) n.id

unfoldable pub find_target : Target → List NodeHeartbeatState → Option NodeHeartbeatState
find_target t [] = none
find_target t (n ∷ ns) =
    let rest = find_target t ns in if is_target t (shown_name n) then some n else rest

abbrev default_state : Target → NodeState
default_state a = leader
default_state _ = follower

abbrev default_id : Target → String
default_id a = "Node A"
default_id b = "Node B"
default_id c = "Node C"

-- Without a node for the target it counts as online.
abbrev info_of : Target → Option NodeHeartbeatState → ReplicaNodeInfo
info_of t none = record {
  id = default_id t;
  is_online = true;
  is_leader = is_leader (default_state t);
  state = default_state t;
  status = online;
}
info_of t (some n) = record {
  id = shown_name n;
  is_online = is_online n.status;
  is_leader = is_leader n.state;
  state = n.state;
  status = n.status;
}

unfoldable pub find_node_for_target : List NodeHeartbeatState → Target → ReplicaNodeInfo
unfolding find_target
find_node_for_target ns t = info_of t (find_target t ns)
