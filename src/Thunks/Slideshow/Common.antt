-- ===== src/Thunks/Slideshow/Common.antt =====
-- What the thunks of slideshowOperation.Slice.tsx have in common: the dispatches, the guard, and
-- the rounding of seconds to minutes.
use shareframe_board.Common.{Bool, String, if◌then◌else◌}
use shareframe_board.Common.Int.{ℤ, pos, floor_div, ◌+ℤ◌}
use shareframe_board.SlideshowOperation.{SlideshowOperationState, SlideshowOperationAction}
use shareframe_board.Snackbars.{SnackbarsAction, AlertColor, add_alert_snackbar}
use shareframe_board.Timers.{TimersAction, reset_timer, start_timer}
use shareframe_board.Store.{Action}
use shareframe_board.Thunk.{Prog, ret, ◌>>=◌, ◌>>◌, dispatch, get_state, uuid}

abbrev pub operation : SlideshowOperationAction → Prog (Unit {0})
operation a = dispatch (Action.slideshow_operation a)

abbrev pub snackbar : SnackbarsAction → Prog (Unit {0})
snackbar a = dispatch (Action.snackbars a)

abbrev pub timer : TimersAction → Prog (Unit {0})
timer a = dispatch (Action.timers a)

-- `dispatch(addAlertSnackbar(uuid(), message, severity))`.
abbrev pub alert : String → AlertColor → Prog (Unit {0})
alert message severity = do id ← uuid; snackbar (add_alert_snackbar id message severity)

abbrev pub actions_timer : String
actions_timer = "slideshow-actions-timer"

abbrev pub restart_actions_timer : Prog (Unit {0})
restart_actions_timer = do timer (reset_timer actions_timer); timer (start_timer actions_timer)

-- `if (busy) return;` and then an id for the operation.
abbrev pub unless_state :
    (SlideshowOperationState → Bool) → (String → Prog (Unit {0})) → Prog (Unit {0})
unless_state busy p = do s ← get_state; if busy s.slideshow_operation then ret tt else (uuid >>= p)

-- `Math.round(seconds / 60)`.
unfoldable pub round_minutes : ℤ → ℤ
unfolding ◌+ℤ◌
round_minutes seconds = floor_div (seconds +ℤ pos 30) 60
