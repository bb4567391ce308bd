-- ===== src/Thunks/Slideshow/Clear.antt =====
-- `clearDisplayThunk` of slideshowOperation.Slice.tsx.
use shareframe_board.Common.{true, false, not, some, String}
use shareframe_board.SlideshowOperation.{set_clear_display_status, set_error, is_busy}
use shareframe_board.Snackbars.{success, error, add_loading_snackbar, remove_loading_snackbar}
use shareframe_board.Board.{Thrown, clear_display, empty_body}
use shareframe_board.Thunk.{
  Prog, ◌>>=◌, ◌>>◌, try_catch, when, fetch_with_timeout, read_json, throw_error, message_of,
  post_to,
}
use shareframe_board.Thunks.Slideshow.Common.{
  operation, snackbar, alert, restart_actions_timer, unless_state,
}

unfoldable pub clear_attempt : String → Prog (Unit {0})
clear_attempt action_id = do
  operation (set_clear_display_status true)
  snackbar (add_loading_snackbar action_id "Bildschirm wird geleert")
  clear_response ← fetch_with_timeout (post_to clear_display empty_body)
  clear_data ← read_json clear_response
  when (not clear_data.success) (throw_error "Bildschirm konnte nicht geleert werden")
  alert "Bildschirm geleert" success
  restart_actions_timer

unfoldable pub clear_end : String → Prog (Unit {0})
clear_end action_id = do
  operation (set_clear_display_status false)
  snackbar (remove_loading_snackbar action_id)

unfoldable pub clear_failed : String → Thrown → Prog (Unit {0})
clear_failed action_id e = do
  operation (set_clear_display_status false)
  operation (set_error (some (message_of "Unbekannter Fehler" e)))
  alert "Bildschirm konnte nicht geleert werden" error
  snackbar (remove_loading_snackbar action_id)

unfoldable pub clear_display_thunk : Prog (Unit {0})
clear_display_thunk =
    unless_state is_busy λ action_id.
      try_catch (clear_attempt action_id >> clear_end action_id) (clear_failed action_id)
