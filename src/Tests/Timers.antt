-- ===== src/Tests/Timers.antt =====
-- The timers at concrete inputs.
use shareframe_board.Common.{refl, some, true, [], ◌∷◌}
use shareframe_board.Common.Int.{pos}
use shareframe_board.Timers.{Timer, TimerState, timers_reducer, update_timer}
use shareframe_board.Timers.Dict.{lookup}
use shareframe_board.Timers.Invariant.{IsValid, timers_reducer-IsValid}

abbrev running : Timer
running = record {
  id = "t";
  duration = 180;
  remaining = 170;
  is_active = true;
  start_timestamp = some 5000;
}

abbrev one_running : TimerState
one_running = record { timers = ("t", running) ∷ []; last_sync_time = 5000 }

one_running-IsValid : IsValid one_running
unfolding lookup
one_running-IsValid = record {
  sound = (record { named = refl; timed = refl }, tt);
  distinct = (refl, tt);
}

timers_reducer-IsValid_example :
    IsValid (timers_reducer 6000 one_running (update_timer "t" (some (pos 20))))
timers_reducer-IsValid_example =
    timers_reducer-IsValid 6000 one_running (update_timer "t" (some (pos 20))) one_running-IsValid
