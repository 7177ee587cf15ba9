-- ===== src/NodeDetail/Texts.antt =====
-- The texts that frontend/src/components/NodeDetailPanel.ts writes for the numbers in the open panel.
use distributed_file_storage.Prelude.{
  ℕ, String, ◌≡◌, refl, ◌≤◌, ◌<◌, ◌-◌, ◌/◌, ◌^◌, Option, none, some, [], ◌∷◌, template, decimal,
}
use distributed_file_storage.Api.{NodeDetailResponse}
use distributed_file_storage.Formats.{
  to_fixed_1, format_time_utc, format_detailed_timestamp, DetailedTimestamp,
}
use distributed_file_storage.Formats.Ages.{Tells, detailed_timestamp-Tells}
use distributed_file_storage.NodeDetail.{Telemetry, render_telemetry, update_telemetry}

pub record TelemetryTexts : Type 0 where
  pub latency : String
  pub hb_time : String
  pub hb_relative : String
  pub term : String
  pub commit_index : String

unfoldable pub latency_display : Option ℕ → String
latency_display none = "—"
latency_display (some tenths) = template ("+" ∷ to_fixed_1 tenths ∷ " ms" ∷ [])

abbrev pub pulse_text : DetailedTimestamp → String
pulse_text d = template (d.relative ∷ " (" ∷ d.full ∷ ")" ∷ [])

-- `iso` is `toISOString` of the browser's dates.
module _ (iso : ℕ → String) where
  unfoldable pub telemetry_texts : ℕ → Telemetry → TelemetryTexts
  unfolding latency_display
  telemetry_texts now t = record {
    latency = latency_display t.latency;
    hb_time = format_time_utc iso t.last_heartbeat;
    hb_relative = pulse_text (format_detailed_timestamp iso now t.last_heartbeat);
    term = template ("#" ∷ decimal t.term ∷ []);
    commit_index = template ("#" ∷ decimal t.commit_index ∷ []);
  }

  -- Whatever the open panel showed, its update writes the texts of a fresh rendering of the same response;
  -- and for a pulse between March 1973 and the year 5138 the text begins with its age, cut to whole seconds,
  -- minutes or hours.
  pub updated_texts-Tell :
      (url_port : String → Option String) (now : ℕ) (id : String) (d : NodeDetailResponse)
      (latency : Option ℕ) (old : Telemetry)
      → 10 ^ 11 ≤ d.last_heartbeat
      → d.last_heartbeat < 10 ^ 14
      → let texts = telemetry_texts now (update_telemetry url_port now id (some d) latency old) in
        (texts ≡ telemetry_texts now (render_telemetry url_port now id (some d) latency))
        × (shown : DetailedTimestamp) × (texts.hb_relative ≡ pulse_text shown)
        × Tells ((now - d.last_heartbeat) / 1000) shown.relative
  unfolding telemetry_texts update_telemetry render_telemetry
  updated_texts-Tell url_port now id d latency old low high = (
    refl,
    format_detailed_timestamp iso now d.last_heartbeat,
    refl,
    (detailed_timestamp-Tells iso now d.last_heartbeat low high).1,
  )
