-- ===== src/FileTable/Texts.antt =====
-- The texts that frontend/src/components/FilePanel.ts writes for the sizes and the times of its panel.
use distributed_file_storage.Prelude.{
  ℕ, zero, suc, String, Option, none, some, [], ◌∷◌, template, decimal,
}
use distributed_file_storage.Formats.{format_time_utc}
use distributed_file_storage.Formats.Bytes.{format_bytes}
use distributed_file_storage.FileTable.Row.{Row}
use distributed_file_storage.FileTable.Panel.{UploadCard, uploading, upload_failed, View}

-- `file.modified_at ? formatTimeUTC(file.modified_at) : '21:40:15 UTC'`
unfoldable pub modified_text : (ℕ → String) → Option ℕ → String
modified_text iso none = "21:40:15 UTC"
modified_text iso (some zero) = "21:40:15 UTC"
modified_text iso (some (suc t)) = format_time_utc iso (suc t)

-- `exponent` is `Math.floor(Math.log(bytes) / Math.log(1024))`.
module _ (exponent : ℕ → ℕ) where
  unfoldable pub size_text : Row → String
  size_text r = format_bytes exponent r.size 2

  -- The heading of the panel, with its files and their bytes.
  unfoldable pub count_text : View → String
  count_text v =
      let (files, bytes) = v.count in
      template ("(" ∷ decimal files ∷ " FILES • " ∷ format_bytes exponent bytes 2 ∷ ")" ∷ [])

  -- The bytes under the bar of an upload that is under way.
  unfoldable pub upload_bytes : UploadCard → Option String
  upload_bytes (upload_failed name message) = none
  upload_bytes (uploading name percent loaded total) =
      some (template (format_bytes exponent loaded 2 ∷ " / " ∷ format_bytes exponent total 2 ∷ []))
