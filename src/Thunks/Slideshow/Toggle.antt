-- ===== src/Thunks/Slideshow/Toggle.antt =====
-- `toggleSlideshowThunk` of slideshowOperation.Slice.tsx. The loop that watches the board takes
-- fuel for ten minutes of rounds of two seconds (Monitor).
use shareframe_board.Common.{
  ℕ, zero, suc, ◌-◌, ◌*◌, Bool, true, false, not, none, some, String, ltb, if◌then◌else◌,
}
use shareframe_board.Common.Text.{◌<>◌}
use shareframe_board.SlideshowOperation.{set_toggle_status, set_error, is_busy}
use shareframe_board.Snackbars.{success, error, add_loading_snackbar, remove_loading_snackbar}
use shareframe_board.Timers.{add_timer}
use shareframe_board.Board.{
  Thrown, slideshow, slideshow_status, clear_display, empty_body, action_body, ServerResponse,
  StatusData,
}
use shareframe_board.Thunk.{
  Prog, ret, sleeping, ◌>>=◌, ◌>>◌, try_catch, when, date_now, fetch_with_timeout, read_json,
  data_of, throw_error, message_of, get_from, post_to,
}
use shareframe_board.Thunks.Slideshow.Common.{
  operation, snackbar, alert, restart_actions_timer, unless_state, actions_timer, timer,
}

-- Ten minutes.
abbrev pub max_operation_wait_time : ℕ
max_operation_wait_time = 10 * 60 * 1000

abbrev pub poll_interval : ℕ
poll_interval = 2000

abbrev pub switch_failed : String
switch_failed = "Der Bilderrahmen hat die Diashow nicht rechtzeitig umgeschaltet"

unfoldable pub action_of : Bool → String
action_of was_active = if was_active then "stop" else "start"

unfoldable pub toggled_message : Bool → String
toggled_message was_active = "Diashow " <> (if was_active then "gestoppt" else "gestartet")

-- `statusCheckData.success && statusCheckData.data.active !== wasActive`.
unfoldable pub has_switched : Bool → ServerResponse StatusData → Prog Bool
has_switched was_active check =
    if check.success
    then (do d ← data_of "active" check; ret (if was_active then not d.active else d.active))
    else ret false

unfoldable pub toggled : String → Bool → Prog (Unit {0})
toggled action_id was_active = do
  operation (set_toggle_status false)
  timer (add_timer actions_timer none)
  restart_actions_timer
  when was_active (fetch_with_timeout (post_to clear_display empty_body) >>= λ _. ret tt)
  snackbar (remove_loading_snackbar action_id)
  alert (toggled_message was_active) success

-- The inner try block: whether the operation is over.
unfoldable pub check_once : String → Bool → Prog Bool
check_once action_id was_active = do
  status_check ← fetch_with_timeout (get_from slideshow_status)
  check ← read_json status_check
  switched ← has_switched was_active check
  if switched then (toggled action_id was_active >> ret true) else ret false

-- The inner catch block.
unfoldable pub check_failed : String → Thrown → Prog Bool
check_failed action_id e = snackbar (remove_loading_snackbar action_id) >> ret false

unfoldable pub switch_timed_out : String → Prog (Unit {0})
switch_timed_out action_id = do
  operation (set_toggle_status false)
  operation (set_error (some switch_failed))
  alert switch_failed error
  snackbar (remove_loading_snackbar action_id)

unfoldable pub monitor_operation : ℕ → String → Bool → ℕ → Prog (Unit {0})
monitor_operation zero action_id was_active start_time = switch_timed_out action_id
monitor_operation (suc fuel) action_id was_active start_time = do
  now ← date_now
  if ltb (now - start_time) max_operation_wait_time
      then (do
        over ← try_catch (check_once action_id was_active) (check_failed action_id)
        if over
            then ret tt
            else sleeping poll_interval (monitor_operation fuel action_id was_active start_time))
      else switch_timed_out action_id

-- Rounds of the loop that cover ten minutes.
abbrev pub monitor_rounds : ℕ
monitor_rounds = 300

-- From the known state on.
unfoldable pub toggle_command : String → Bool → Prog (Unit {0})
toggle_command action_id was_active = do
  toggle_response ← fetch_with_timeout (post_to slideshow (action_body (action_of was_active)))
  toggle_data ← read_json toggle_response
  when (not toggle_data.success) (throw_error "Diashow konnte nicht umgeschaltet werden")
  start_time ← date_now
  monitor_operation monitor_rounds action_id was_active start_time

unfoldable pub toggle_attempt : String → Prog (Unit {0})
toggle_attempt action_id = do
  operation (set_toggle_status true)
  snackbar (add_loading_snackbar action_id "Diashow wird umgeschaltet")
  status_response ← fetch_with_timeout (get_from slideshow_status)
  status_data ← read_json status_response
  when (not status_data.success) (throw_error "Status der Diashow konnte nicht geladen werden")
  status ← data_of "active" status_data
  toggle_command action_id status.active

unfoldable pub toggle_failed : String → Thrown → Prog (Unit {0})
toggle_failed action_id e = do
  operation (set_toggle_status false)
  operation (set_error (some (message_of "Unbekannter Fehler" e)))
  alert "Diashow konnte nicht umgeschaltet werden" error
  snackbar (remove_loading_snackbar action_id)

unfoldable pub toggle_slideshow_thunk : Prog (Unit {0})
toggle_slideshow_thunk =
    unless_state is_busy λ action_id. try_catch (toggle_attempt action_id) (toggle_failed action_id)
