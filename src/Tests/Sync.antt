-- ===== src/Tests/Sync.antt =====
-- The sync of the timers, and the state as a whole, at concrete inputs.
use shareframe_board.Common.{
  ◌-◌, ◌/◌, ◌≡◌, refl, true, false, none, some, [], ◌∷◌, String, str_eq, arith, if◌then◌else◌,
}
use shareframe_board.Timers.{Timer}
use shareframe_board.Timers.Dict.{lookup, map_values}
use shareframe_board.Store.Invariant.{IsCoherent}
use shareframe_board.Thunk.{World, run, finished}
use shareframe_board.Thunk.Always.{run-IsCoherent}
use shareframe_board.Thunks.Timers.{sync_timers, sync_specific_timer, seconds_between}
use shareframe_board.Thunks.Timers.Synced.{
  with_left, sync_specific_timer_left, caught_up, sync_timers-caught_up,
}
use shareframe_board.Thunks.Slideshow.Toggle.{toggle_slideshow_thunk}
use shareframe_board.Tests.Base.{board, at_rest}

abbrev running : Timer
running = record {
  id = "t";
  duration = 180;
  remaining = 180;
  is_active = true;
  start_timestamp = some 5000;
}

abbrev paused : Timer
paused = record {
  id = "u";
  duration = 60;
  remaining = 50;
  is_active = false;
  start_timestamp = none;
}

-- Twelve and a half seconds after the first timer was started.
abbrev ticking : World
ticking = record at_rest {
  state = record (at_rest.state) {
    timers = record { timers = ("t", running) ∷ ("u", paused) ∷ []; last_sync_time = 5000 };
  };
  clock = 17500;
}

sync_specific_timer_left_example :
    let u = run (board 20 []) (sync_specific_timer "t") ticking in
    ((j : String)
      → lookup j u.0.state.timers.timers ≡ (
          if str_eq "t" j
          then some (with_left (180 - (17500 - 5000) / 1000) running)
          else lookup j ticking.state.timers.timers))
    × (u.1 ≡ finished ("t", some (180 - (17500 - 5000) / 1000)))
unfolding lookup
sync_specific_timer_left_example =
    sync_specific_timer_left (board 20 []) ticking "t" running 5000 refl refl refl (omega arith)
      (omega arith)

sync_timers-caught_up_example :
    let u = run (board 20 []) sync_timers ticking in
    (u.0.state.timers.timers
      ≡ map_values (caught_up (seconds_between 5000 17500)) ticking.state.timers.timers)
    × (u.1 ≡ finished 17500)
unfolding lookup
sync_timers-caught_up_example = sync_timers-caught_up (board 20 []) ticking (refl, (refl, tt))

at_rest-IsCoherent : IsCoherent at_rest.state
at_rest-IsCoherent = record { bounded = omega arith; distinct = tt; dated = refl; tidy = refl }

run-IsCoherent_example : IsCoherent (run (board 20 []) toggle_slideshow_thunk at_rest).0.state
run-IsCoherent_example =
    run-IsCoherent (board 20 []) toggle_slideshow_thunk at_rest at_rest-IsCoherent
