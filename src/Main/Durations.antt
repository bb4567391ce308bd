-- ===== src/Main/Durations.antt =====
-- The durations that dashboard-frontend/frontend/src/main/slideshowImages/slideshowImagesUtils.ts,
-- store/timers/timers.Slice.tsx and main/frame/frameActions.tsx print.
pub mod Parts
use shareframe_board.Common.{
  ℕ, ◌+◌, ◌-◌, ◌*◌, ◌/◌, ◌%◌, List, [], ◌∷◌, ◌++◌, String, ltb, leb, ◌==◌, if◌then◌else◌,
}
use shareframe_board.Common.Text.{◌<>◌, show}

unfoldable pub plural : ℕ → String → String → String
plural count singular plural_form =
    show count <> " " <> (if count == 1 then singular else plural_form)

-- `Math.round(durationMs / MINUTE_MS)`.
abbrev pub total_minutes : ℕ → ℕ
total_minutes duration_ms = (duration_ms + 30000) / 60000

abbrev pub days_of : ℕ → ℕ
days_of minutes = minutes / (24 * 60)

abbrev pub hours_of : ℕ → ℕ
hours_of minutes = minutes % (24 * 60) / 60

abbrev pub part_of : ℕ → String → String → List String
part_of count singular plural_form =
    if ltb 0 count then plural count singular plural_form ∷ [] else []

unfoldable pub join_words : List String → String
join_words [] = ""
join_words (word ∷ []) = word
join_words (word ∷ next ∷ words) = word <> " " <> join_words (next ∷ words)

-- The parts that are not zero.
unfoldable pub duration_parts : ℕ → List String
duration_parts minutes =
    part_of (days_of minutes) "Tag" "Tage"
    ++ part_of (hours_of minutes) "Stunde" "Stunden"
    ++ part_of (minutes % 60) "Minute" "Minuten"

unfoldable pub text_of_parts : List String → String
text_of_parts [] = "weniger als 1 Minute"
text_of_parts (part ∷ parts) = join_words (part ∷ parts)

unfoldable pub format_duration : ℕ → String
format_duration duration_ms = text_of_parts (duration_parts (total_minutes duration_ms))

unfoldable pub format_time_left : ℕ → ℕ → String
format_time_left expires_at now =
    if leb (expires_at * 1000) now
    then "Abgelaufen"
    else "noch " <> format_duration (expires_at * 1000 - now)

-- `String(n).padStart(2, '0')`: a number of more digits keeps them.
abbrev pub pad_two : ℕ → String
pad_two n = if ltb n 10 then "0" <> show n else show n

-- `formatTime` of the timers.
unfoldable pub format_time : ℕ → String
format_time seconds = pad_two (seconds / 60) <> ":" <> pad_two (seconds % 60)

unfoldable pub format_countdown : ℕ → String
format_countdown s = show (s / 60) <> ":" <> pad_two (s % 60)
