-- ===== src/Thunks/Slideshow/Interval.antt =====
-- `fetchDisplayImagesLoopInterval` and `updateDisplayImagesLoopInterval` of
-- slideshowOperation.Slice.tsx.
use shareframe_board.Common.{true, false, Option, none, some, String, if◌then◌else◌}
use shareframe_board.Common.Int.{ℤ, scale}
use shareframe_board.Common.Text.{◌<>◌, show_ℤ, text_or}
use shareframe_board.SlideshowOperation.{
  set_fetch_interval_status, set_update_interval_status, set_display_refresh_interval, set_error,
  is_busy,
}
use shareframe_board.Snackbars.{success, error, add_loading_snackbar, remove_loading_snackbar}
use shareframe_board.Board.{
  Thrown, ServerResponse, StatusData, slideshow_status, slideshow_interval, interval_body,
}
use shareframe_board.Thunk.{
  Prog, ret, ◌>>=◌, ◌>>◌, try_catch, get_state, fetch_with_timeout, read_json, throw_error,
  message_of, get_from, post_to,
}
use shareframe_board.Thunks.Slideshow.Common.{
  operation, snackbar, alert, restart_actions_timer, unless_state, round_minutes,
}

-- `payload.data?.interval_seconds` of a successful answer.
unfoldable pub interval_of : ServerResponse StatusData → Option ℤ
interval_of payload =
    if payload.success
    then elim payload.content [ none ↦ none | some d ↦ d.interval_seconds ]
    else none

unfoldable pub keep_interval : Option ℤ → Prog (Unit {0})
keep_interval none = throw_error "Failed to fetch display interval"
keep_interval (some seconds) = operation (set_display_refresh_interval (round_minutes seconds))

unfoldable pub load_interval : Prog (Unit {0})
load_interval = do
  operation (set_fetch_interval_status true)
  response ← fetch_with_timeout (get_from slideshow_status)
  payload ← read_json response
  keep_interval (interval_of payload)

unfoldable pub load_interval_failed : Thrown → Prog (Unit {0})
load_interval_failed e = do
  operation (set_fetch_interval_status false)
  operation (set_error (some (message_of "Unbekannter Fehler" e)))
  alert "Intervall konnte nicht geladen werden" error

unfoldable pub fetch_display_images_loop_interval : Prog (Unit {0})
fetch_display_images_loop_interval = do
  s ← get_state
  if s.slideshow_operation.is_fetching_interval
      then ret tt
      else try_catch (load_interval >> operation (set_fetch_interval_status false))
          load_interval_failed

-- What a successful answer to the update leads to.
unfoldable pub interval_saved : ℤ → Prog (Unit {0})
interval_saved interval_mins = do
  operation (set_display_refresh_interval interval_mins)
  alert ("Intervall auf " <> show_ℤ interval_mins <> " Minuten gesetzt") success
  restart_actions_timer

unfoldable pub interval_attempt : ℤ → String → Prog (Unit {0})
interval_attempt interval_mins action_id = do
  operation (set_update_interval_status true)
  snackbar (add_loading_snackbar action_id "Intervall wird gespeichert")
  response ←
      fetch_with_timeout (post_to slideshow_interval (interval_body (scale interval_mins 60)))
  payload ← read_json response
  if payload.success
      then interval_saved interval_mins
      else throw_error (text_or payload.message "Failed to update display interval")

unfoldable pub interval_end : String → Prog (Unit {0})
interval_end action_id = do
  operation (set_update_interval_status false)
  snackbar (remove_loading_snackbar action_id)

unfoldable pub interval_failed : String → Thrown → Prog (Unit {0})
interval_failed action_id e = do
  operation (set_update_interval_status false)
  operation (set_error (some (message_of "Unbekannter Fehler" e)))
  alert "Intervall konnte nicht gespeichert werden" error
  snackbar (remove_loading_snackbar action_id)

unfoldable pub update_display_images_loop_interval : ℤ → Prog (Unit {0})
update_display_images_loop_interval interval_mins = unless_state is_busy λ action_id.
    try_catch (interval_attempt interval_mins action_id >> interval_end action_id)
      (interval_failed action_id)
