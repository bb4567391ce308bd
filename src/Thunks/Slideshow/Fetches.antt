-- ===== src/Thunks/Slideshow/Fetches.antt =====
-- How the two fetches and the update of the night mode of slideshowOperation.Slice.tsx end.
use shareframe_board.Common.{◌≡◌, Bool, false, none, some, ◌∷◌, arith, if◌then◌else◌}
use shareframe_board.Common.Int.{ℤ}
use shareframe_board.SlideshowOperation.{
  SlideshowOperationState, NightStyle, NightMode, slideshow_operation_reducer,
}
use shareframe_board.Board.{Request, slideshow_night_mode, slideshow_status}
use shareframe_board.Store.{root_reducer}
use shareframe_board.Thunk.{
  Prog, Env, World, finished, apply, run, send, delivered, post_to, get_from,
}
use shareframe_board.Thunk.Waiting.{until_wait}
use shareframe_board.Thunks.Slideshow.Verdict.{verdict, on_verdict}
use shareframe_board.Thunks.Slideshow.Interval.{
  fetch_display_images_loop_interval, load_interval, load_interval_failed, keep_interval,
}
use shareframe_board.Thunks.Slideshow.Night.{
  fetch_night_mode, load_night, load_night_failed, keep_night, settings, night_body_of,
  night_attempt, night_end, night_failed, update_night_mode,
}

-- The two fetches.
pub data Fetch : Type 0 where
  interval night : Fetch

abbrev pub fetch_thunk : Fetch → Prog (Unit {0})
fetch_thunk interval = fetch_display_images_loop_interval
fetch_thunk night = fetch_night_mode

abbrev pub fetch_flag : Fetch → SlideshowOperationState → Bool
fetch_flag interval s = s.is_fetching_interval
fetch_flag night s = s.is_fetching_night_mode

-- In the end the flag of a fetch is what it was when the fetch was called, whatever the board
-- answers and whatever happens meanwhile: up if another fetch is under way, and down otherwise. The
-- fetch throws nothing, and sends one request or, if another is under way, none.
pub fetch_thunk-fetch_flag :
    (env : Env) (f : Fetch) (w : World)
    → let before = fetch_flag f w.state.slideshow_operation in
      let u = run env (fetch_thunk f) w in
      (fetch_flag f u.0.state.slideshow_operation ≡ before)
      × (u.0.requests ≡ (if before then w.requests else (get_from slideshow_status ∷ w.requests)))
      × (u.1 ≡ finished tt)
unfolding fetch_display_images_loop_interval load_interval load_interval_failed keep_interval
    fetch_night_mode load_night load_night_failed keep_night run send apply root_reducer
    slideshow_operation_reducer
fetch_thunk-fetch_flag env interval w = ground arith
fetch_thunk-fetch_flag env night w = ground arith

abbrev pub night_request : NightMode → Request
night_request n = post_to slideshow_night_mode (night_body_of n)

-- The night mode in the state.
abbrev pub night_in : SlideshowOperationState → NightMode
night_in s = record {
  enabled = s.night_mode_enabled;
  start_hour = s.night_start_hour;
  end_hour = s.night_end_hour;
  interval_mins = s.night_interval_mins;
  style = s.night_style;
  active_now = none;
}

-- An update of the night mode that its guard lets through posts the settings once. If the board
-- accepts, they stand in the state; otherwise the settings stay what they were after the wait and
-- the error says why. Whether the night mode is active now stays as it was in both cases, and the
-- flag is down.
pub update_night_mode-verdict :
    (env : Env) (w : World) (enabled : Bool) (start_hour end_hour interval_mins : ℤ)
    (style : NightStyle)
    → w.state.slideshow_operation.is_updating_night_mode ≡ false
    → let n = settings enabled start_hour end_hour interval_mins style in
      let p = update_night_mode enabled start_hour end_hour interval_mins style in
      let v = (send env (night_request n) (until_wait env p w)).state.slideshow_operation in
      let u = (run env p w).0 in
      let verdict =
        verdict "Failed to update night mode" (delivered env (night_request n) w.waits) in
      (u.requests ≡ night_request n ∷ w.requests)
      × (night_in u.state.slideshow_operation ≡ on_verdict verdict n (λ _. night_in v))
      × (u.state.slideshow_operation.error ≡ on_verdict verdict v.error some)
      × (u.state.slideshow_operation.night_mode_active_now ≡ v.night_mode_active_now)
      × (u.state.slideshow_operation.is_updating_night_mode ≡ false)
unfolding update_night_mode night_attempt night_end night_failed run until_wait send apply
    root_reducer slideshow_operation_reducer
update_night_mode-verdict env w enabled start_hour end_hour interval_mins style free = ground arith
