-- ===== src/NodeTable/Update.antt =====
-- The update in place of the table of frontend/src/components/NodeList.ts.
use distributed_file_storage.Prelude.{
  ℕ, String, str_eq, Bool, true, false, ◌||◌, Option, none, some, List, [], ◌∷◌, map, length, ◌==◌,
  if◌then◌else◌, template, decimal,
}
use distributed_file_storage.Heartbeat.Node.{NodeHeartbeatState}
use distributed_file_storage.NodeDetail.{normal}
use distributed_file_storage.FileTable.Update.{join, role_text, status_text}
use distributed_file_storage.Formats.{to_fixed_1}
use distributed_file_storage.NodeTable.{
  Row, Table, NodePanel, shown, skeleton, counted_skeleton, rows_of, online_count, caption_of,
  render_node_list,
}

-- What the module keeps between updates, and the panel.
pub record NodeList : Type 0 where
  pub signature : String
  pub panel : NodePanel

-- `selectedNodeId === n.id`
abbrev is_own_id : Option String → NodeHeartbeatState → Bool
is_own_id none n = false
is_own_id (some s) n = str_eq s n.id

abbrev bool_text : Bool → String
bool_text true = "true"
bool_text false = "false"

-- A time in the template text is a number, whose digits stand for those of its thousandths.
abbrev node_text : Option String → NodeHeartbeatState → String
node_text selected n = template (
    n.id
    ∷ ":"
    ∷ role_text n.state
    ∷ ":"
    ∷ status_text n.status
    ∷ ":"
    ∷ to_fixed_1 n.latency_tenths
    ∷ ":"
    ∷ decimal n.last_heartbeat
    ∷ ":"
    ∷ bool_text (is_own_id selected n)
    ∷ [])

unfoldable pub list_signature : Option String → List NodeHeartbeatState → String
list_signature selected sorted = join "|" (map (node_text selected) sorted)

-- `same_row` says that the browser writes the row that is there as the text of the new one.
module _ (same_row : Row → Row → Bool) where
  unfoldable pub replace_rows : List Row → List Row → List Row
  replace_rows [] new = []
  replace_rows (r ∷ rs) [] = r ∷ rs
  replace_rows (r ∷ rs) (r' ∷ new) = (if same_row r r' then r else r') ∷ replace_rows rs new

  unfoldable pub update_rows : List Row → List Row → List Row
  unfolding replace_rows
  update_rows old new = if length old == length new then replace_rows old new else new

  module _ (sort : List NodeHeartbeatState → List NodeHeartbeatState) (iso : ℕ → String) where
    abbrev pub update_table : Option String → List NodeHeartbeatState → String → Table → NodeList
    update_table selected ns old t =
        let sorted = sort ns in
        let signature = list_signature selected sorted in
        let rows = update_rows t.rows (rows_of sort iso selected ns) in
        record {
          signature = signature;
          panel = shown (record {
            count = online_count sorted;
            caption = caption_of (online_count sorted);
            rows = if str_eq signature old then t.rows else rows;
          });
        }

    -- The skeleton has the table, but none of its rows is a row of a node.
    abbrev update_skeleton : Option String → List NodeHeartbeatState → String → NodeList
    update_skeleton selected ns old =
        let sorted = sort ns in
        let signature = list_signature selected sorted in
        let count = online_count sorted in
        let caption = caption_of count in
        let rows = rows_of sort iso selected ns in
        record {
          signature = signature;
          panel =
              if str_eq signature old || length rows == 0
              then counted_skeleton count caption
              else shown (record { count = count; caption = caption; rows = rows });
        }

    -- A panel without the table is drawn anew, and the signature is forgotten.
    abbrev update_panel :
        ℕ → Option String → List NodeHeartbeatState → String → NodePanel → NodeList
    update_panel now selected ns old (shown t) = update_table selected ns old t
    update_panel now selected ns old skeleton = update_skeleton selected ns old
    update_panel now selected ns old (counted_skeleton _ _) = update_skeleton selected ns old
    update_panel now selected ns old _ = record {
      signature = "";
      panel = render_node_list sort iso now ns normal none selected;
    }

    unfoldable pub update_node_list_dom :
        ℕ → List NodeHeartbeatState → Option String → NodeList → NodeList
    unfolding list_signature update_rows
    update_node_list_dom now ns selected l = update_panel now selected ns l.signature l.panel
