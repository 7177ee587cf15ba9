-- ===== src/NodeTable/Laws.antt =====
-- What the table of frontend/src/components/NodeList.ts shows after its update in place, and the rows that
-- an update of the selection misses.
use distributed_file_storage.Prelude.{
  ℕ, String, str_eq, ◌≡◌, ◌≢◌, refl, sym, ap, ◌∙◌, Bool, true, Bool-cases, inl, inr, Option, none,
  List, [], ◌∷◌, length, ◌==◌, ◌↔◌, ◌⊎◌, if◌then◌else◌, eq_iff, ==_iff, arith,
}
use distributed_file_storage.Heartbeat.Node.{NodeHeartbeatState}
use distributed_file_storage.NodeDetail.{normal}
use distributed_file_storage.NodeTable.{
  Row, Table, NodePanel, shown, rows_of, table_of, render_node_list, default_nodes, online_count,
  caption_of,
}
use distributed_file_storage.NodeTable.Update.{
  list_signature, replace_rows, update_rows, update_node_list_dom,
}

-- The browser writes different rows as different texts.
abbrev pub TellsRows : (Row → Row → Bool) → Type 0
TellsRows same_row = (r r' : Row) → same_row r r' ≡ true → r ≡ r'

module _ (same_row : Row → Row → Bool) (tells : TellsRows same_row) where
  kept-or-replaced : (r r' : Row) → (if same_row r r' then r else r') ≡ r'
  kept-or-replaced r r' = elim (Bool-cases (same_row r r')) [
    | inl e ↦ rw e (tells r r' e)
    | inr e ↦ rw e refl
  ]

  replace_rows-all :
      (old new : List Row) → length old ≡ length new → replace_rows same_row old new ≡ new
  unfolding replace_rows
  replace_rows-all [] [] e = refl
  replace_rows-all [] (r ∷ new) e = absurd (omega (arith, e))
  replace_rows-all (r ∷ old) [] e = absurd (omega (arith, e))
  replace_rows-all (r ∷ old) (r' ∷ new) e =
      λ j. kept-or-replaced r r' j ∷ replace_rows-all old new (omega (arith, e)) j

  update_rows-all : (old new : List Row) → update_rows same_row old new ≡ new
  unfolding update_rows
  update_rows-all old new = elim (Bool-cases (length old == length new)) [
    | inl e ↦ rw e (replace_rows-all old new ((==_iff (length old) (length new)).0 e))
    | inr e ↦ rw e refl
  ]

abbrev rows_in : NodePanel → List Row
rows_in (shown t) = t.rows
rows_in _ = []

abbrev with_rows : ℕ → List Row → NodePanel
with_rows count rows = shown (record { count = count; caption = caption_of count; rows = rows })

default_nodes-some : (now : ℕ) (ns : List NodeHeartbeatState) → ns ≢ [] → default_nodes now ns ≡ ns
default_nodes-some now [] some_node = absurd (some_node refl)
default_nodes-some now (n ∷ ns) some_node = refl

module _ (sort : List NodeHeartbeatState → List NodeHeartbeatState) (iso : ℕ → String) where
  -- Where the browser writes different rows as different texts: for a list with a node, the update in place of
  -- a shown table makes it what a fresh rendering is exactly if the signature is another than the one kept, or
  -- the rows that are there are those of the nodes already.
  pub update_node_list-eq-render :
      (same_row : Row → Row → Bool) (now : ℕ) (ns : List NodeHeartbeatState)
      (selected : Option String) (signature : String) (t : Table)
      → TellsRows same_row
      → ns ≢ []
      → ((update_node_list_dom same_row sort iso now ns selected
            (record { signature = signature; panel = shown t })).panel
          ≡ render_node_list sort iso now ns normal none selected)
        ↔ ((list_signature selected (sort ns) ≢ signature)
            ⊎ (t.rows ≡ rows_of sort iso selected ns))
  unfolding update_node_list_dom render_node_list
  update_node_list-eq-render same_row now ns selected signature t tells some_node =
      let fresh =
        ap (λ ns. shown (table_of sort iso selected ns)) (default_nodes-some now ns some_node) in
      let count = online_count (sort ns) in
      let rows = rows_of sort iso selected ns in
      elim (Bool-cases (str_eq (list_signature selected (sort ns)) signature)) [
        | inl same ↦ rw same (
          λ e. inr (ap rows_in (e ∙ fresh)),
          λ h. elim h [
            | inl differ ↦
                absurd (differ ((eq_iff (list_signature selected (sort ns)) signature).0 same))
            | inr drawn ↦ ap (with_rows count) drawn ∙ sym fresh
          ],
        )
        | inr other ↦ rw other (
          λ e.
              inl
                (λ h. let agree = (eq_iff (list_signature selected (sort ns)) signature).1 h in cc),
          λ h. ap (with_rows count) (update_rows-all same_row tells t.rows rows) ∙ sym fresh,
        )
      ]
