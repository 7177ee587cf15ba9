-- ===== src/Formats.antt =====
-- The formatters of frontend/src/tokens/index.ts and of the two components that show times:
-- frontend/src/components/NodeList.ts and NodeDetailPanel.ts. Times that a heartbeat carries are in
-- thousandths of the unit that the server counts in, and latencies in tenths of a millisecond.
pub mod Bytes
pub mod Ages
use Prim.Native.String
use distributed_file_storage.Prelude.{
  ℕ, zero, suc, ◌+◌, ◌-◌, ◌*◌, ◌/◌, ◌%◌, ◌^◌, String, Bool, true, false, ◌||◌, not, ◌&&◌, List, [],
  ◌∷◌, ltb, leb, ◌==◌, if◌then◌else◌, template, decimal, Option, none, some, get_elem?, or_else,
}

-- `toFixed(1)` of a number of tenths
unfoldable pub to_fixed_1 : ℕ → String
to_fixed_1 t = template (decimal (t / 10) ∷ "." ∷ decimal (t % 10) ∷ [])

-- A latency is not below 0, or below it by the successor of a number of tenths.
pub data Offset : Type 0 where
  ahead : ℕ → Offset
  behind : ℕ → Offset

unfoldable pub format_latency : Offset → String
unfolding to_fixed_1
format_latency (ahead t) = template ("+" ∷ to_fixed_1 t ∷ " ms" ∷ [])
format_latency (behind t) = template ("-" ∷ to_fixed_1 (suc t) ∷ " ms" ∷ [])

unfoldable pub format_term : ℕ → String
format_term term = template ("Term #" ∷ decimal term ∷ [])

unfoldable pub format_commit_index : ℕ → String
format_commit_index index = template ("Commit #" ∷ decimal index ∷ [])

-- `timestamp < 1e11 ? timestamp * 1000 : timestamp`, in whole milliseconds as a date has them
abbrev pub milliseconds : ℕ → ℕ
milliseconds thousandths = if ltb thousandths (10 ^ 14) then thousandths else thousandths / 1000

-- `Math.max(0, Math.floor((now - ms) / 1000))`, where the milliseconds are not rounded
abbrev pub age_of : ℕ → ℕ → ℕ
age_of now t = if ltb t (10 ^ 14) then (now - t) / 1000 else (1000 * now - t) / 1000000

-- A date holds no more milliseconds than this.
abbrev pub is_date : ℕ → Bool
is_date ms = leb ms 8640000000000000

-- `text.replace(from, to)` for a character of the source
abbrev replace_first : ℕ → String → String → String
replace_first from to String.[] = ""
replace_first from to (String.◌∷◌ c s) =
    let rest = replace_first from to s in
    if Prim.Native.Char.code c == from then template (to ∷ s ∷ []) else String.◌∷◌ c rest

pub record DetailedTimestamp : Type 0 where
  pub full : String
  pub relative : String

-- The text of an age in seconds.
unfoldable pub relative_text : ℕ → String
relative_text age =
    if leb 1 age && ltb age 60
    then template (decimal age ∷ "s ago" ∷ [])
    else if leb 60 age && ltb age 3600
    then template (decimal (age / 60) ∷ "m ago" ∷ [])
    else if leb 3600 age
    then template (decimal (age / 3600) ∷ "h ago" ∷ [])
    else "Just now"

-- `iso` is `toISOString` of the browser's dates, for the milliseconds that a date can hold.
module _ (iso : ℕ → String) where
  unfoldable pub format_time_utc : ℕ → String
  format_time_utc t =
      let ms = milliseconds t in
      if t == 0 || not (is_date ms)
      then "—"
      else template (String.slice (iso ms) 11 19 ∷ " UTC" ∷ [])

  abbrev pub full_text : ℕ → String
  full_text ms =
      template (String.slice (iso ms) 0 10 ∷ " " ∷ String.slice (iso ms) 11 19 ∷ " UTC" ∷ [])

  unfoldable pub format_detailed_timestamp : ℕ → ℕ → DetailedTimestamp
  format_detailed_timestamp now t =
      let ms = milliseconds t in
      if t == 0
      then record { full = "—"; relative = "No pulse recorded" }
      else if not (is_date ms)
      then record { full = "—"; relative = "Invalid timestamp" }
      else record { full = full_text ms; relative = relative_text (age_of now t) }

  -- `none` where `toISOString` throws
  unfoldable pub format_timestamp : ℕ → Option String
  format_timestamp t =
      let ms = milliseconds t in
      if is_date ms
      then some (replace_first b'Z' " UTC" (replace_first b'T' " " (iso ms)))
      else none
