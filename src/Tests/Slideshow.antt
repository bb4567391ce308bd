-- ===== src/Tests/Slideshow.antt =====
-- The operations on the slideshow at concrete inputs.
use shareframe_board.Common.{◌+◌, ◌≡◌, refl, true, some, [], ◌∷◌}
use shareframe_board.Common.Int.{pos}
use shareframe_board.SlideshowOperation.{initial_state, is_busy, set_error, SlideshowOperationState}
use shareframe_board.Store.{Action}
use shareframe_board.Thunk.{run, World, reduce_all}
use shareframe_board.Thunk.Waiting.{until_wait}
use shareframe_board.Thunks.Slideshow.Operations.{
  skip_image, update_interval, short, short_thunk, thunk_of, flag_of,
}
use shareframe_board.Thunks.Slideshow.Ends.{IsOver, short_thunk-IsOver}
use shareframe_board.Thunks.Slideshow.Toggle.{monitor_operation, monitor_rounds}
use shareframe_board.Thunks.Slideshow.Monitor.{monitor_operation_rounds}
use shareframe_board.Tests.Base.{board, at_rest}

short_thunk-IsOver_example :
    IsOver
      (flag_of skip_image)
      ((board 20 []).fresh_uuid 0)
      (run (board 20 []) (short_thunk skip_image) at_rest)
unfolding is_busy
short_thunk-IsOver_example = short_thunk-IsOver (board 20 []) skip_image at_rest refl

-- The display is cleared while the interval is being saved, and an error is set meanwhile.
abbrev saving : World
saving = until_wait (board 20 []) (thunk_of (short (update_interval (pos 30)))) at_rest

abbrev disturbed : World
disturbed = record saving {
  state =
      reduce_all 1500 saving.state (Action.slideshow_operation (set_error (some "Fehler")) ∷ []);
}

monitor_operation_rounds_example :
    run (board 20 []) (monitor_operation (monitor_rounds + 7) "a" true 1000) at_rest
    ≡ run (board 20 []) (monitor_operation monitor_rounds "a" true 1000) at_rest
monitor_operation_rounds_example = monitor_operation_rounds (board 20 []) "a" true 7 at_rest

abbrev showing : SlideshowOperationState
showing = record initial_state { is_showing_image = true }
