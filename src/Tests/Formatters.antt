-- ===== src/Tests/Formatters.antt =====
-- Runs of the formatters, of the table of the nodes, and of the name of a download.
use Prim.Native.String
use distributed_file_storage.Prelude.{
  Bool, ℕ, String, ◌≡◌, ◌≢◌, refl, ◌-◌, ◌*◌, ◌%◌, ◌^◌, ◌≤◌, false, none, some, List, [], ◌∷◌, ◌↔◌,
  ◌⊎◌, template, arith, decimal,
}
use distributed_file_storage.Tests.{node_b, no_port}
use distributed_file_storage.Heartbeat.Node.{NodeHeartbeatState, fresh}
use distributed_file_storage.NodeDetail.{normal}
use distributed_file_storage.Formats.{
  format_latency, ahead, format_time_utc, format_timestamp, to_fixed_1,
}
use distributed_file_storage.Formats.Bytes.{
  format_bytes, fixed_text, unit_text, Within, format_bytes-Within, round_quotient, strip_zeros,
  last_digits,
}
use distributed_file_storage.NodeTable.{Row, Table, shown, render_node_list, rows_of, table_of}
use distributed_file_storage.NodeTable.Update.{list_signature, update_node_list_dom}
use distributed_file_storage.NodeTable.Laws.{update_node_list-eq-render}
use distributed_file_storage.Client.Disposition.{disposition_name, trim_start, trim_end}
use distributed_file_storage.Client.Disposition.Names.{disposition_name-quote}

abbrev one : ℕ → ℕ
one b = 1

-- 1536 bytes are 1.5 KB.
format_bytes-Within_example :
    (m : ℕ) × (e : ℕ) × (format_bytes one 1536 2
      ≡ template (fixed_text (m, e) ∷ " " ∷ unit_text 1 ∷ []))
    × (e ≤ 2)
    × ((e ≡ 0) ⊎ (m % 10 ≢ 0))
    × Within (m * 10 ^ (2 - e)) (1536 * 10 ^ 2) (1024 ^ 1)
    × (10 ^ 2 ≤ m * 10 ^ (2 - e))
    × (m * 10 ^ (2 - e) ≤ 1024 * 10 ^ 2)
format_bytes-Within_example =
    format_bytes-Within one 1536 2 (omega arith) (omega arith) (omega arith) (omega arith)
      (omega arith)

kilobytes_test : format_bytes one 1536 2 ≡ "1.5 KB"
unfolding format_bytes round_quotient strip_zeros fixed_text last_digits template decimal
kilobytes_test = refl

-- One byte less than a megabyte is shown as 1024 KB.
rounded_test : format_bytes one 1048575 2 ≡ "1024 KB"
unfolding format_bytes round_quotient strip_zeros fixed_text last_digits template decimal
rounded_test = refl

-- The sizes end with the terabyte.
petabyte_test : format_bytes (λ b. 5) 1125899906842624 2 ≡ "1 undefined"
unfolding format_bytes round_quotient strip_zeros fixed_text last_digits template decimal
petabyte_test = refl

latency_test : format_latency (ahead 124) ≡ "+12.4 ms"
unfolding format_latency to_fixed_1 template decimal
latency_test = refl

abbrev iso : ℕ → String
iso ms = "2026-01-02T03:04:05.000Z"

time_test : format_time_utc iso 1767323045000 ≡ "03:04:05 UTC"
unfolding format_time_utc template
time_test = refl

timestamp_test : format_timestamp iso 1767323045000 ≡ some "2026-01-02 03:04:05.000 UTC"
unfolding format_timestamp template
timestamp_test = refl

abbrev same : List NodeHeartbeatState → List NodeHeartbeatState
same ns = ns

abbrev never : Row → Row → Bool
never r r' = false

abbrev beating : NodeHeartbeatState
beating = fresh no_port 20 "nodeB" node_b

abbrev no_rows : Table
no_rows = record (table_of same iso none (beating ∷ [])) { rows = [] }

update_node_list-eq-render_example :
    ((update_node_list_dom never same iso 0
        (beating ∷ [])
        (some "nodeB")
        (record { signature = ""; panel = shown no_rows })).panel
      ≡ render_node_list same iso 0 (beating ∷ []) normal none (some "nodeB"))
    ↔ ((list_signature (some "nodeB") (beating ∷ []) ≢ "")
        ⊎ (no_rows.rows ≡ rows_of same iso (some "nodeB") (beating ∷ [])))
update_node_list-eq-render_example =
    update_node_list-eq-render same iso never 0 (beating ∷ []) (some "nodeB") "" no_rows
      (λ r r' e. cc) (λ e. cc)

disposition_name-quote_example :
    (disposition_name (some (String.◌++◌ "attachment; filename=\"" (String.◌++◌ " a b.txt" "\"")))
      ≡ some (trim_end (trim_start " a b.txt")))
    × (disposition_name (some (String.◌++◌ "attachment; filename*=utf-8''" " a b.txt"))
        ≡ some (trim_end (trim_start " a b.txt")))
disposition_name-quote_example =
    disposition_name-quote " a b.txt" refl
      (refl, (refl, (refl, (refl, (refl, (refl, (refl, (refl, tt))))))))
