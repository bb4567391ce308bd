-- ===== src/Thunks/Slideshow/Skip.antt =====
-- `skipImageThunk` of slideshowOperation.Slice.tsx.
use shareframe_board.Common.{true, false, not, some, String, str_eq, ◌==◌, if◌then◌else◌}
use shareframe_board.SlideshowOperation.{set_skip_image_status, set_error, is_busy}
use shareframe_board.Snackbars.{success, error, add_loading_snackbar, remove_loading_snackbar}
use shareframe_board.Board.{Thrown, error_of, other, skip_slideshow_image, empty_body}
use shareframe_board.Thunk.{
  Prog, ◌>>=◌, ◌>>◌, try_catch, when, fetch_with_timeout, read_json, throw_error, message_of,
  post_to,
}
use shareframe_board.Thunks.Slideshow.Common.{
  operation, snackbar, alert, restart_actions_timer, unless_state,
}

abbrev pub skip_while_refreshing : String
skip_while_refreshing = "Das Display wird gerade aktualisiert. Versuche es gleich noch einmal."

-- The try block, up to the reset of the status.
unfoldable pub skip_attempt : String → Prog (Unit {0})
skip_attempt action_id = do
  operation (set_skip_image_status true)
  snackbar (add_loading_snackbar action_id "Foto wird übersprungen")
  skip_response ← fetch_with_timeout (post_to skip_slideshow_image empty_body)
  when (skip_response.status == 409) (throw_error skip_while_refreshing)
  clear_data ← read_json skip_response
  when (not clear_data.success) (throw_error "Foto konnte nicht übersprungen werden")
  alert "Foto übersprungen" success
  restart_actions_timer

unfoldable pub skip_end : String → Prog (Unit {0})
skip_end action_id = do
  operation (set_skip_image_status false)
  snackbar (remove_loading_snackbar action_id)

-- `error instanceof Error && error.message === SKIP_WHILE_REFRESHING ? … : …`.
unfoldable pub skip_alert : Thrown → String
skip_alert (error_of message) =
    if str_eq message skip_while_refreshing
    then skip_while_refreshing
    else "Foto konnte nicht übersprungen werden"
skip_alert other = "Foto konnte nicht übersprungen werden"

unfoldable pub skip_failed : String → Thrown → Prog (Unit {0})
skip_failed action_id e = do
  operation (set_skip_image_status false)
  operation (set_error (some (message_of "Unbekannter Fehler" e)))
  alert (skip_alert e) error
  snackbar (remove_loading_snackbar action_id)

unfoldable pub skip_image_thunk : Prog (Unit {0})
skip_image_thunk =
    unless_state is_busy
      λ action_id. try_catch (skip_attempt action_id >> skip_end action_id) (skip_failed action_id)
