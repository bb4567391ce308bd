-- ===== src/Thunks/Slideshow/Exclusion.antt =====
-- The operations of slideshowOperation.Slice.tsx exclude one another.
use shareframe_board.Common.{ℕ, ◌≡◌, refl, true, List, [], ◌∷◌, arith, All, ◌∙◌}
use shareframe_board.SlideshowOperation.{
  set_toggle_status, set_clear_display_status, set_skip_image_status, set_show_image_status,
  set_update_interval_status, reset_operation, is_busy, slideshow_operation_reducer,
}
use shareframe_board.Store.{RootState, Action, root_reducer}
use shareframe_board.Thunk.{Env, World, finished, apply, run, reduce_all}
use shareframe_board.Thunk.Waiting.{until_wait}
use shareframe_board.Thunks.Slideshow.Guard.{unless_state_busy}
use shareframe_board.Thunks.Slideshow.Skip.{skip_image_thunk, skip_attempt}
use shareframe_board.Thunks.Slideshow.Clear.{clear_display_thunk, clear_attempt}
use shareframe_board.Thunks.Slideshow.Interval.{
  update_display_images_loop_interval, interval_attempt,
}
use shareframe_board.Thunks.Slideshow.Show.{show_image_thunk, show_attempt}
use shareframe_board.Thunks.Slideshow.Toggle.{toggle_slideshow_thunk, toggle_attempt}
use shareframe_board.Thunks.Slideshow.Operations.{
  skip_image, clear, show_image, update_interval, Operation, short, toggle, thunk_of,
}

-- A call that the guard turns away does nothing: no request, no action, no notification.
pub thunk_of_busy :
    (env : Env) (o : Operation) (w : World)
    → is_busy w.state.slideshow_operation ≡ true
    → run env (thunk_of o) w ≡ (w, finished tt)
unfolding skip_image_thunk clear_display_thunk update_display_images_loop_interval show_image_thunk
    toggle_slideshow_thunk
thunk_of_busy env (short skip_image) w h = unless_state_busy env is_busy _ w h
thunk_of_busy env (short clear) w h = unless_state_busy env is_busy _ w h
thunk_of_busy env (short (show_image n)) w h = unless_state_busy env is_busy _ w h
thunk_of_busy env (short (update_interval m)) w h = unless_state_busy env is_busy _ w h
thunk_of_busy env toggle w h = unless_state_busy env is_busy _ w h

-- While an operation awaits its first answer, one of the five flags is up.
until_wait_busy :
    (env : Env) (o : Operation) (w : World)
    → is_busy (until_wait env (thunk_of o) w).state.slideshow_operation ≡ true
unfolding skip_image_thunk clear_display_thunk update_display_images_loop_interval show_image_thunk
    toggle_slideshow_thunk skip_attempt clear_attempt interval_attempt show_attempt toggle_attempt
    until_wait apply root_reducer slideshow_operation_reducer is_busy
until_wait_busy env (short skip_image) w = ground arith
until_wait_busy env (short clear) w = ground arith
until_wait_busy env (short (show_image n)) w = ground arith
until_wait_busy env (short (update_interval m)) w = ground arith
until_wait_busy env toggle w = ground arith

-- An action that leaves the five flags of the exclusive operations alone.
abbrev pub LeavesFlags : Action → Type 0
LeavesFlags (Action.slideshow_operation (set_toggle_status b)) = ⊥
LeavesFlags (Action.slideshow_operation (set_clear_display_status b)) = ⊥
LeavesFlags (Action.slideshow_operation (set_skip_image_status b)) = ⊥
LeavesFlags (Action.slideshow_operation (set_show_image_status b)) = ⊥
LeavesFlags (Action.slideshow_operation (set_update_interval_status b)) = ⊥
LeavesFlags (Action.slideshow_operation reset_operation) = ⊥
LeavesFlags _ = Unit

is_busy-root_reducer :
    (now : ℕ) (s : RootState) (a : Action)
    → LeavesFlags a
    → is_busy (root_reducer now s a).slideshow_operation ≡ is_busy s.slideshow_operation
unfolding root_reducer slideshow_operation_reducer is_busy
is_busy-root_reducer now s (Action.slideshow_operation (set_toggle_status b)) h = elim h [ ]
is_busy-root_reducer now s (Action.slideshow_operation (set_clear_display_status b)) h = elim h [ ]
is_busy-root_reducer now s (Action.slideshow_operation (set_skip_image_status b)) h = elim h [ ]
is_busy-root_reducer now s (Action.slideshow_operation (set_show_image_status b)) h = elim h [ ]
is_busy-root_reducer now s (Action.slideshow_operation (set_update_interval_status b)) h =
    elim h [ ]
is_busy-root_reducer now s (Action.slideshow_operation reset_operation) h = elim h [ ]
is_busy-root_reducer now s _ h = refl

is_busy-reduce_all :
    (now : ℕ) (s : RootState) (as' : List Action)
    → All LeavesFlags as'
    → is_busy (reduce_all now s as').slideshow_operation ≡ is_busy s.slideshow_operation
unfolding reduce_all
is_busy-reduce_all now s [] h = refl
is_busy-reduce_all now s (a ∷ rest) (h, hs) =
    is_busy-reduce_all now (root_reducer now s a) rest hs ∙ is_busy-root_reducer now s a h

-- While one operation awaits its first answer, and after any actions that leave the flags alone,
-- starting another operation, or the same once more, does nothing.
pub thunk_of-thunk_of :
    (env : Env) (first second : Operation) (w : World) (now : ℕ) (meanwhile : List Action)
    → All LeavesFlags meanwhile
    → let v = until_wait env (thunk_of first) w in
      let u = record v { state = reduce_all now v.state meanwhile } in
      run env (thunk_of second) u ≡ (u, finished tt)
thunk_of-thunk_of env first second w now meanwhile h =
    thunk_of_busy env second _ (is_busy-reduce_all now _ meanwhile h ∙ until_wait_busy env first w)
