-- ===== src/Main/FrameActions/Allowed.antt =====
-- What the buttons of frameActions.tsx let through.
use shareframe_board.Common.{◌≡◌, Bool, true, false, ◌||◌, arith}
use shareframe_board.Common.Int.{ℤ, pos, ◌≤ℤ◌}
use shareframe_board.SlideshowOperation.{is_busy}
use shareframe_board.Main.FrameActions.{
  FrameInput, FrameForm, FrameButton, toggle_slideshow, save_interval, save_night_mode, skip, clear,
  minutes, hours, IntervalUnit, is_below_min, is_above_max, interval_mins_of, same_ℤ, is_known,
  is_night_form_invalid, is_buttons_disabled, is_timer_running, is_disabled,
}

-- Whether a click on a button starts one of the operations that exclude one another.
abbrev pub is_exclusive : FrameButton → Bool
is_exclusive save_night_mode = false
is_exclusive _ = true

-- While one of the buttons for an exclusive operation can be clicked, the board is connected and its
-- status known, no timer runs, and the guard of the operations would turn the click away exactly if a
-- picture is being shown or an interval saved: these two the page does not look at.
pub is_disabled-is_busy :
    (i : FrameInput) (form : FrameForm) (b : FrameButton)
    → is_exclusive b ≡ true
    → is_disabled i form b ≡ false
    → (is_known i ≡ true)
      × (is_timer_running i ≡ false)
      × (is_busy i.operation ≡ (i.operation.is_showing_image || i.operation.is_updating_interval))
unfolding is_disabled is_buttons_disabled is_timer_running is_busy
is_disabled-is_busy i form toggle_slideshow x h = (ground arith, ground arith, ground arith)
is_disabled-is_busy i form save_interval x h = (ground arith, ground arith, ground arith)
is_disabled-is_busy i form save_night_mode x h = ground arith
is_disabled-is_busy i form skip x h = (ground arith, ground arith, ground arith)
is_disabled-is_busy i form clear x h = (ground arith, ground arith, ground arith)

interval-bounds :
    (u : IntervalUnit) (v : ℤ)
    → is_below_min u v ≡ false
    → is_above_max u v ≡ false
    → (pos 5 ≤ℤ interval_mins_of u v) × (interval_mins_of u v ≤ℤ pos 1440)
unfolding is_below_min is_above_max interval_mins_of
interval-bounds minutes v h k = (ground arith, ground arith)
interval-bounds hours v h k = (ground arith, ground arith)

-- An interval that can be saved is between five minutes and a day when it reaches the board, in either
-- unit.
pub is_disabled-save_interval :
    (i : FrameInput) (form : FrameForm)
    → is_disabled i form save_interval ≡ false
    → let m = interval_mins_of form.interval_unit form.interval_value in
      (pos 5 ≤ℤ m) × (m ≤ℤ pos 1440)
unfolding is_disabled
is_disabled-save_interval i form h =
    interval-bounds form.interval_unit form.interval_value (ground arith) (ground arith)

-- A night that can be saved does not end in the hour in which it begins, and its interval is between
-- five minutes and a day.
pub is_disabled-save_night_mode :
    (i : FrameInput) (form : FrameForm)
    → is_disabled i form save_night_mode ≡ false
    → (same_ℤ form.night_start form.night_end ≡ false)
      × (pos 5 ≤ℤ form.night_interval)
      × (form.night_interval ≤ℤ pos 1440)
unfolding is_disabled is_night_form_invalid
is_disabled-save_night_mode i form h = (ground arith, ground arith, ground arith)
