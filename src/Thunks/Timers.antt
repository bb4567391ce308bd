-- ===== src/Thunks/Timers.antt =====
-- The two thunks of dashboard-frontend/frontend/src/store/timers/timers.Slice.tsx that bring the
-- timers up to the clock. A timestamp of 0 is falsy, as in JavaScript.
pub mod Synced
use shareframe_board.Common.{
  ℕ, suc, Bool, true, false, Option, none, some, List, [], ◌∷◌, String, ◌==◌, ltb, if◌then◌else◌,
}
use shareframe_board.Common.Int.{ℤ, pos, ◌-ℤ◌, floor_div, pos_part}
use shareframe_board.Timers.{Timer, TimersAction, update_timer, stop_timer, select_timer}
use shareframe_board.Store.{Action, RootState}
use shareframe_board.Thunk.{Prog, ret, ◌>>=◌, ◌>>◌, dispatch, get_state, date_now, when}

-- `timer.isActive && timer.startTimestamp`.
abbrev pub running_since : Timer → Option ℕ
running_since t =
    if t.is_active
    then elim t.start_timestamp [
      | none ↦ none
      | some since ↦ if ltb 0 since then some since else none
    ]
    else none

-- `Math.floor((now - then) / 1000)`.
abbrev pub seconds_between : ℕ → ℕ → ℤ
seconds_between since now = floor_div (pos now -ℤ pos since) 1000

-- `Math.max(0, total - elapsed)`.
abbrev pub left_of : ℕ → ℤ → ℕ
left_of total elapsed = pos_part (pos total -ℤ elapsed)

unfoldable pub set_remaining : String → ℕ → Prog (Unit {0})
set_remaining id remaining = do
  dispatch (Action.timers (update_timer id (some (pos remaining))))
  when (remaining == 0) (dispatch (Action.timers (stop_timer id)))

unfoldable pub sync_entries : ℤ → List (String × Timer) → Prog (Unit {0})
sync_entries elapsed [] = ret tt
sync_entries elapsed ((id, t) ∷ rest) =
    elim (running_since t) [
      | none ↦ ret tt
      | some since ↦ set_remaining id (left_of t.remaining elapsed)
    ]
    >> sync_entries elapsed rest

-- The payload creator of `syncTimers`, with the time that it returns.
unfoldable pub sync_timers : Prog ℕ
sync_timers = do
  state ← get_state
  current_time ← date_now
  sync_entries (seconds_between state.timers.last_sync_time current_time) state.timers.timers
  ret current_time

-- The payload creator of `syncSpecificTimer`, with the remaining seconds that it returns.
unfoldable pub sync_specific_timer : String → Prog (String × Option ℕ)
sync_specific_timer id = do
  state ← get_state
  elim (select_timer id state.timers) [
    | none ↦ ret (id, none)
    | some t ↦ elim (running_since t) [
      | none ↦ ret (id, none)
      | some since ↦ do
        current_time ← date_now
        let remaining = left_of t.duration (seconds_between since current_time)
        set_remaining id remaining
        ret (id, some remaining)
    ]
  ]
