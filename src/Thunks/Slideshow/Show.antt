-- ===== src/Thunks/Slideshow/Show.antt =====
-- `showImageThunk` of slideshowOperation.Slice.tsx.
use shareframe_board.Common.{
  true, false, not, ◌||◌, Option, none, some, String, str_eq, ◌==◌, if◌then◌else◌,
}
use shareframe_board.Common.Int.{ℤ}
use shareframe_board.SlideshowOperation.{set_show_image_status, set_error, is_busy}
use shareframe_board.Snackbars.{success, error, add_loading_snackbar, remove_loading_snackbar}
use shareframe_board.Board.{Thrown, show_slideshow_image, image_body}
use shareframe_board.Thunk.{
  Prog, ◌>>=◌, ◌>>◌, try_catch, finally, when, start, call_fetch_slideshow_images,
  fetch_with_timeout, read_json, throw_error, message_of, post_to,
}
use shareframe_board.Thunks.Slideshow.Common.{
  operation, snackbar, alert, restart_actions_timer, unless_state,
}
use shareframe_board.Thunks.Slideshow.Skip.{skip_while_refreshing}

abbrev pub show_while_paused : String
show_while_paused = "Die Diashow ist gestoppt. Starte sie zuerst."

-- The error for status 409.
unfoldable pub conflict_message : Option String → String
conflict_message none = skip_while_refreshing
conflict_message (some message) =
    if str_eq message "Slideshow is paused" then show_while_paused else skip_while_refreshing

unfoldable pub show_attempt : ℤ → String → Prog (Unit {0})
show_attempt id action_id = do
  operation (set_show_image_status true)
  snackbar (add_loading_snackbar action_id "Foto wird angezeigt")
  response ← fetch_with_timeout (post_to show_slideshow_image (image_body id))
  answer ← read_json response
  when (response.status == 409) (throw_error (conflict_message answer.message))
  when (not answer.success) (throw_error "Foto konnte nicht angezeigt werden")
  alert "Foto wird auf dem Bilderrahmen angezeigt" success
  restart_actions_timer
  start call_fetch_slideshow_images

unfoldable pub show_alert : String → String
show_alert message =
    if str_eq message skip_while_refreshing || str_eq message show_while_paused
    then message
    else "Foto konnte nicht angezeigt werden"

unfoldable pub show_failed : Thrown → Prog (Unit {0})
show_failed e = do
  let message = message_of "Unbekannter Fehler" e
  operation (set_error (some message))
  alert (show_alert message) error

unfoldable pub show_last : String → Prog (Unit {0})
show_last action_id = do
  operation (set_show_image_status false)
  snackbar (remove_loading_snackbar action_id)

unfoldable pub show_image_thunk : ℤ → Prog (Unit {0})
show_image_thunk id =
    unless_state is_busy
      λ action_id. finally (try_catch (show_attempt id action_id) show_failed) (show_last action_id)
