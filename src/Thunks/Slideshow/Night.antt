-- ===== src/Thunks/Slideshow/Night.antt =====
-- `fetchNightMode` and `updateNightMode` of slideshowOperation.Slice.tsx.
use shareframe_board.Common.{Bool, true, false, not, Option, none, some, String, if◌then◌else◌}
use shareframe_board.Common.Int.{ℤ, scale}
use shareframe_board.Common.Text.{◌<>◌, show_ℤ, text_or}
use shareframe_board.SlideshowOperation.{
  NightStyle, slower, hold, pause, NightMode, set_fetch_night_mode_status,
  set_update_night_mode_status, set_night_mode, set_error,
}
use shareframe_board.Snackbars.{success, error, add_loading_snackbar, remove_loading_snackbar}
use shareframe_board.Board.{
  Thrown, ServerResponse, StatusData, NightData, slideshow_status, slideshow_night_mode,
  night_mode_body, RequestBody,
}
use shareframe_board.Thunk.{
  Prog, ret, ◌>>=◌, ◌>>◌, try_catch, get_state, fetch_with_timeout, read_json, throw_error,
  message_of, get_from, post_to,
}
use shareframe_board.Thunks.Slideshow.Common.{
  operation, snackbar, alert, unless_state, round_minutes,
}

-- `payload.data?.night_mode` of a successful answer.
unfoldable pub night_of : ServerResponse StatusData → Option NightData
night_of payload =
    if payload.success then elim payload.content [ none ↦ none | some d ↦ d.night_mode ] else none

-- The board's night mode in the terms of the dashboard.
unfoldable pub night_mode_of : NightData → NightMode
night_mode_of night = record {
  enabled = night.enabled;
  start_hour = night.start_hour;
  end_hour = night.end_hour;
  interval_mins = round_minutes night.interval_seconds;
  style = night.style;
  active_now = some night.active_now;
}

unfoldable pub keep_night : Option NightData → Prog (Unit {0})
keep_night none = throw_error "Failed to fetch night mode"
keep_night (some night) = operation (set_night_mode (night_mode_of night))

unfoldable pub load_night : Prog (Unit {0})
load_night = do
  operation (set_fetch_night_mode_status true)
  response ← fetch_with_timeout (get_from slideshow_status)
  payload ← read_json response
  keep_night (night_of payload)

unfoldable pub load_night_failed : Thrown → Prog (Unit {0})
load_night_failed e = do
  operation (set_fetch_night_mode_status false)
  operation (set_error (some (message_of "Unbekannter Fehler" e)))
  alert "Nachtmodus konnte nicht geladen werden" error

unfoldable pub fetch_night_mode : Prog (Unit {0})
fetch_night_mode = do
  s ← get_state
  if s.slideshow_operation.is_fetching_night_mode
      then ret tt
      else try_catch (load_night >> operation (set_fetch_night_mode_status false)) load_night_failed

unfoldable pub night_style_suffix : NightStyle → ℤ → String
night_style_suffix slower interval_mins = show_ℤ interval_mins <> " Minuten Intervall"
night_style_suffix hold interval_mins = "festgehaltenem Foto"
night_style_suffix pause interval_mins = "ausgeschaltetem Bildschirm"

-- The arguments of `updateNightMode`, as a night mode with `activeNow` left out.
abbrev pub settings : Bool → ℤ → ℤ → ℤ → NightStyle → NightMode
settings enabled start_hour end_hour interval_mins style = record {
  enabled = enabled;
  start_hour = start_hour;
  end_hour = end_hour;
  interval_mins = interval_mins;
  style = style;
  active_now = none;
}

unfoldable pub night_saved_message : NightMode → String
night_saved_message n =
    if not n.enabled
    then "Nachtmodus deaktiviert"
    else "Nachtmodus von "
      <> show_ℤ n.start_hour
      <> ":00 bis "
      <> show_ℤ n.end_hour
      <> ":00 Uhr mit "
      <> night_style_suffix n.style n.interval_mins
      <> " gespeichert"

unfoldable pub night_body_of : NightMode → RequestBody
night_body_of n =
    night_mode_body n.enabled n.start_hour n.end_hour (scale n.interval_mins 60) n.style

unfoldable pub night_attempt : NightMode → String → Prog (Unit {0})
night_attempt n action_id = do
  operation (set_update_night_mode_status true)
  snackbar (add_loading_snackbar action_id "Nachtmodus wird gespeichert")
  response ← fetch_with_timeout (post_to slideshow_night_mode (night_body_of n))
  payload ← read_json response
  if payload.success
      then (operation (set_night_mode n) >> alert (night_saved_message n) success)
      else throw_error (text_or payload.message "Failed to update night mode")

unfoldable pub night_end : String → Prog (Unit {0})
night_end action_id = do
  operation (set_update_night_mode_status false)
  snackbar (remove_loading_snackbar action_id)

unfoldable pub night_failed : String → Thrown → Prog (Unit {0})
night_failed action_id e = do
  operation (set_update_night_mode_status false)
  operation (set_error (some (message_of "Unbekannter Fehler" e)))
  alert "Nachtmodus konnte nicht gespeichert werden" error
  snackbar (remove_loading_snackbar action_id)

unfoldable pub update_night_mode : Bool → ℤ → ℤ → ℤ → NightStyle → Prog (Unit {0})
update_night_mode enabled start_hour end_hour interval_mins style =
    let n = settings enabled start_hour end_hour interval_mins style in
    unless_state (λ s. s.is_updating_night_mode)
      λ action_id.
        try_catch (night_attempt n action_id >> night_end action_id) (night_failed action_id)
