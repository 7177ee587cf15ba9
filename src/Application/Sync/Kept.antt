-- ===== src/Application/Sync/Kept.antt =====
-- What an update of the panel of frontend/src/components/FilePanel.ts leaves of its table: one that has been
-- drawn for the signature of what the services tell.
use Prim.Native.String
use Prim.Native.String.append
use distributed_file_storage.Prelude.{
  String, str_eq, ◌≡◌, refl, sym, ap, ◌∙◌, subst, Bool, true, Bool-cases, inl, inr, Option, none,
  some, List, [], ◌∷◌, ◌⊎◌, eq_iff, template, map, truthy, ◌≢◌,
}
use distributed_file_storage.Api.{ClusterState, healthy, operational, no_majority}
use distributed_file_storage.Heartbeat.Node.{NodeHeartbeatState}
use distributed_file_storage.FileTable.Panel.{shown, View, Props}
use distributed_file_storage.FileTable.Update.{
  FilePanel, table_of, table_signature, node_signature, update_panel, cluster_text,
  action_signature, file_signature, join, update_view, update_file_panel_dom,
}
use distributed_file_storage.Application.{props_of, Latest}
use distributed_file_storage.Application.Sync.{same_state}

-- The table has been drawn from some props, whose signature is kept if any is.
abbrev pub IsKept : FilePanel → Type 0
IsKept f =
    (v : View) × (q : Props) × (f.panel ≡ shown v)
    × (v.table ≡ table_of q.files q)
    × ((f.signature ≡ "") ⊎ (f.signature ≡ table_signature q))

-- The table has been drawn from props with the signature of those that the services tell now.
abbrev pub IsDrawn : Latest → FilePanel → Type 0
IsDrawn l f =
    (v : View) × (q : Props) × (f.panel ≡ shown v)
    × (v.table ≡ table_of q.files q)
    × (table_signature q ≡ table_signature (props_of l))
    × ((f.signature ≡ "") ⊎ (f.signature ≡ table_signature q))

pub IsDrawn-IsKept : (l : Latest) (f : FilePanel) → IsDrawn l f → IsKept f
IsDrawn-IsKept l f (v, q, panel, table, agree, kept) = (v, q, panel, table, kept)

truthy-or_left : (s t : String) → truthy s ≡ true → truthy (String.◌++◌ s t) ≡ true
truthy-or_left String.[] t e = cc
truthy-or_left (String.◌∷◌ c s) t e = ap truthy (append.cons c s t)

truthy-or_right : (s t : String) → truthy t ≡ true → truthy (String.◌++◌ s t) ≡ true
truthy-or_right String.[] t e = ap truthy (append.nil t) ∙ e
truthy-or_right (String.◌∷◌ c s) t e = ap truthy (append.cons c s t)

truthy-template :
    (s t : String) (rest : List String) → truthy t ≡ true → truthy (template (s ∷ t ∷ rest)) ≡ true
unfolding template
truthy-template s t rest e = truthy-or_right s _ (truthy-or_left t (template rest) e)

some-text : (s : String) → truthy s ≡ true → s ≢ ""
some-text s e h = let none_left : truthy "" ≡ true = ap truthy (sym h) ∙ e in cc

table_signature-some : (p : Props) → table_signature p ≢ ""
unfolding table_signature
table_signature-some p = some-text _ (
    truthy-template p.search_query "#"
      (cluster_text p.cluster
        ∷ "#"
        ∷ action_signature p.download p.delete
        ∷ "#"
        ∷ node_signature p.nodes
        ∷ "#"
        ∷ join "|" (map file_signature p.files)
        ∷ [])
      refl)

pub table_signature-nodes :
    (p : Props) (nodes : List NodeHeartbeatState)
    → node_signature nodes ≡ node_signature p.nodes
    → table_signature (record p { nodes = nodes }) ≡ table_signature p
unfolding table_signature
table_signature-nodes p nodes e =
    ap
      (λ s. template (
        p.search_query
        ∷ "#"
        ∷ cluster_text p.cluster
        ∷ "#"
        ∷ action_signature p.download p.delete
        ∷ "#"
        ∷ s
        ∷ "#"
        ∷ join "|" (map file_signature p.files)
        ∷ []))
      e

pub same_state-eq : (s t : Option ClusterState) → same_state s t ≡ true → s ≡ t
same_state-eq none none e = refl
same_state-eq none (some t) e = cc
same_state-eq (some healthy) (some healthy) e = refl
same_state-eq (some operational) (some operational) e = refl
same_state-eq (some no_majority) (some no_majority) e = refl
same_state-eq (some s) t e = cc

update_panel-IsDrawn :
    (search_focused : Bool) (l : Latest) (signature : String) (v : View) (q : Props)
    → v.table ≡ table_of q.files q
    → (signature ≡ "") ⊎ (signature ≡ table_signature q)
    → IsDrawn l (update_panel search_focused (props_of l) signature (shown v))
update_panel-IsDrawn search_focused l signature v q table kept =
    let p = props_of l in
    elim (Bool-cases (str_eq (table_signature p) signature)) [
      | inl same ↦
          let agree = (eq_iff (table_signature p) signature).0 same in
          rw same (elim kept [
            | inl e ↦ absurd (table_signature-some p (agree ∙ e))
            | inr e ↦ (
              update_view search_focused p v.table v,
              q,
              refl,
              table,
              sym (agree ∙ e),
              inr (agree ∙ e),
            )
          ])
      | inr other ↦
          rw other
            (update_view search_focused p (table_of p.files p) v, p, refl, refl, refl, inr refl)
    ]

pub update-IsDrawn :
    (search_focused : Bool) (l : Latest) (f : FilePanel)
    → IsKept f
    → IsDrawn l (update_file_panel_dom search_focused (props_of l) f)
unfolding update_file_panel_dom
update-IsDrawn search_focused l f (v, q, panel, table, kept) =
    subst (λ x. IsDrawn l (update_panel search_focused (props_of l) f.signature x)) (sym panel)
      (update_panel-IsDrawn search_focused l f.signature v q table kept)

pub IsDrawn-transfer :
    (l l' : Latest) (f : FilePanel)
    → table_signature (props_of l) ≡ table_signature (props_of l')
    → IsDrawn l f
    → IsDrawn l' f
IsDrawn-transfer l l' f e (v, q, panel, table, agree, kept) = (v, q, panel, table, agree ∙ e, kept)
