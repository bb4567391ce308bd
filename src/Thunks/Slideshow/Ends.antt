-- ===== src/Thunks/Slideshow/Ends.antt =====
-- How four of the five operations on the slideshow end, all but the toggle, whatever the board answers and whatever the rest of the
-- dashboard does meanwhile.
use shareframe_board.Common.{◌≡◌, refl, Bool, false, none, String}
use shareframe_board.Common.Int.{ℤ}
use shareframe_board.SlideshowOperation.{
  SlideshowOperationState, is_busy, slideshow_operation_reducer,
}
use shareframe_board.Snackbars.{snackbars_reducer}
use shareframe_board.Snackbars.Loading.{has_loading, has_loading-without_loading}
use shareframe_board.Board.{Thrown}
use shareframe_board.Store.{root_reducer}
use shareframe_board.Thunk.{Env, World, Ending, finished, threw, try_catch, apply, run}
use shareframe_board.Thunk.Laws.{try_then, recover, conclude, run-finally, run-try_catch}
use shareframe_board.Thunks.Slideshow.Guard.{unless_state_free}
use shareframe_board.Thunks.Slideshow.Skip.{skip_attempt, skip_end, skip_failed, skip_image_thunk}
use shareframe_board.Thunks.Slideshow.Clear.{
  clear_attempt, clear_end, clear_failed, clear_display_thunk,
}
use shareframe_board.Thunks.Slideshow.Interval.{
  interval_attempt, interval_end, interval_failed, update_display_images_loop_interval,
}
use shareframe_board.Thunks.Slideshow.Show.{show_attempt, show_failed, show_last, show_image_thunk}
use shareframe_board.Thunks.Slideshow.Operations.{
  Short, skip_image, clear, show_image, update_interval, short_thunk, flag_of,
}

-- The flag is down, no start time is left, the loading notification is gone, nothing was thrown.
abbrev pub IsOver : (SlideshowOperationState → Bool) → String → World × Ending (Unit {0}) → Type 0
IsOver flag id r =
    (flag r.0.state.slideshow_operation ≡ false)
    × (r.0.state.slideshow_operation.start_time ≡ none)
    × (has_loading id r.0.state.snackbars.loading ≡ false)
    × (r.1 ≡ finished tt)

module _ (env : Env) (id : String) (w : World) where
  skip_end-IsOver :
      IsOver (flag_of skip_image) id (recover env (skip_failed id) (run env (skip_end id) w))
  unfolding skip_end run apply root_reducer slideshow_operation_reducer snackbars_reducer
  skip_end-IsOver = (refl, refl, has_loading-without_loading id _, refl)

  skip_failed-IsOver : (e : Thrown) → IsOver (flag_of skip_image) id (run env (skip_failed id e) w)
  unfolding skip_failed run apply root_reducer slideshow_operation_reducer snackbars_reducer
  skip_failed-IsOver e = (refl, refl, has_loading-without_loading id _, refl)

  clear_end-IsOver :
      IsOver (flag_of clear) id (recover env (clear_failed id) (run env (clear_end id) w))
  unfolding clear_end run apply root_reducer slideshow_operation_reducer snackbars_reducer
  clear_end-IsOver = (refl, refl, has_loading-without_loading id _, refl)

  clear_failed-IsOver : (e : Thrown) → IsOver (flag_of clear) id (run env (clear_failed id e) w)
  unfolding clear_failed run apply root_reducer slideshow_operation_reducer snackbars_reducer
  clear_failed-IsOver e = (refl, refl, has_loading-without_loading id _, refl)

  interval_end-IsOver :
      (m : ℤ)
      → IsOver
          (flag_of (update_interval m))
          id
          (recover env (interval_failed id) (run env (interval_end id) w))
  unfolding interval_end run apply root_reducer slideshow_operation_reducer snackbars_reducer
  interval_end-IsOver m = (refl, refl, has_loading-without_loading id _, refl)

  interval_failed-IsOver :
      (m : ℤ) (e : Thrown)
      → IsOver (flag_of (update_interval m)) id (run env (interval_failed id e) w)
  unfolding interval_failed run apply root_reducer slideshow_operation_reducer snackbars_reducer
  interval_failed-IsOver m e = (refl, refl, has_loading-without_loading id _, refl)

-- The handler of the show operation throws nothing, so its last block runs after a normal end.
show_last-IsOver :
    (env : Env) (id : String) (n : ℤ) (r : World × Ending (Unit {0}))
    → IsOver (flag_of (show_image n)) id (conclude env (show_last id) (recover env show_failed r))
unfolding show_last show_failed run apply root_reducer slideshow_operation_reducer snackbars_reducer
show_last-IsOver env id n (w, finished _) = (refl, refl, has_loading-without_loading id _, refl)
show_last-IsOver env id n (w, threw e) = (refl, refl, has_loading-without_loading id _, refl)

-- A skip, a clear, a request to show a picture or an update of the interval that its guard lets
-- through is over at its end on every path: whatever the board answers, or if it does not, and
-- whatever the rest of the dashboard dispatches meanwhile, the flag of the operation is down, no start
-- time is left, its loading notification is gone, and the thunk does not throw.
pub short_thunk-IsOver :
    (env : Env) (o : Short) (w : World)
    → is_busy w.state.slideshow_operation ≡ false
    → IsOver (flag_of o) (env.fresh_uuid w.uuids) (run env (short_thunk o) w)
unfolding skip_image_thunk clear_display_thunk update_display_images_loop_interval show_image_thunk
short_thunk-IsOver env skip_image w free = rw (unless_state_free env is_busy _ w free) (
    try_then env (IsOver (flag_of skip_image) _) (skip_attempt _) (skip_end _) (skip_failed _) _
      (λ v. skip_end-IsOver env _ v) (λ v. skip_failed-IsOver env _ v))
short_thunk-IsOver env clear w free = rw (unless_state_free env is_busy _ w free) (
    try_then env (IsOver (flag_of clear) _) (clear_attempt _) (clear_end _) (clear_failed _) _
      (λ v. clear_end-IsOver env _ v) (λ v. clear_failed-IsOver env _ v))
short_thunk-IsOver env (update_interval m) w free = rw (unless_state_free env is_busy _ w free) (
    try_then env (IsOver (flag_of (update_interval m)) _) (interval_attempt m _) (interval_end _)
      (interval_failed _) _ (λ v. interval_end-IsOver env _ v m)
      (λ v. interval_failed-IsOver env _ v m))
short_thunk-IsOver env (show_image n) w free =
    rw
      (
        unless_state_free env is_busy _ w free,
        run-finally env (try_catch (show_attempt n _) show_failed) (show_last _) _,
        run-try_catch env (show_attempt n _) show_failed _,
      )
      (show_last-IsOver env _ n _)
