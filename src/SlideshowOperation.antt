-- ===== src/SlideshowOperation.antt =====
-- dashboard-frontend/frontend/src/store/slideshowOperation/slideshowOperation.Slice.tsx: the state
-- of the operations on the slideshow, its reducer and its selectors. The thunks of the file are in
-- Thunks/Slideshow. `now` stands for `Date.now()`.
pub mod Flags
use shareframe_board.Common.{
  ℕ, Bool, true, false, ◌||◌, Option, none, some, String, or_else, if◌then◌else◌,
}
use shareframe_board.Common.Int.{ℤ, pos}

pub data NightStyle : Type 0 where
  slower hold pause : NightStyle

pub record SlideshowOperationState : Type 0 where
  pub is_toggling : Bool
  pub is_clearing_display : Bool
  pub is_skipping_image : Bool
  pub is_showing_image : Bool
  pub is_updating_interval : Bool
  pub is_fetching_interval : Bool
  pub is_updating_night_mode : Bool
  pub is_fetching_night_mode : Bool
  pub display_images_interval_mins : ℤ
  pub night_mode_enabled : Bool
  pub night_mode_active_now : Bool
  pub night_start_hour : ℤ
  pub night_end_hour : ℤ
  pub night_interval_mins : ℤ
  pub night_style : NightStyle
  pub error : Option String
  pub start_time : Option ℕ

abbrev pub initial_state : SlideshowOperationState
initial_state = record {
  is_toggling = false;
  is_clearing_display = false;
  is_skipping_image = false;
  is_showing_image = false;
  is_updating_interval = false;
  is_fetching_interval = false;
  is_updating_night_mode = false;
  is_fetching_night_mode = false;
  display_images_interval_mins = pos 15;
  night_mode_enabled = false;
  night_mode_active_now = false;
  night_start_hour = pos 2;
  night_end_hour = pos 5;
  night_interval_mins = pos 60;
  night_style = hold;
  error = none;
  start_time = none;
}

-- The payload of `setNightMode`; `activeNow` may be left out.
pub record NightMode : Type 0 where
  pub enabled : Bool
  pub start_hour : ℤ
  pub end_hour : ℤ
  pub interval_mins : ℤ
  pub style : NightStyle
  pub active_now : Option Bool

pub data SlideshowOperationAction : Type 0 where
  set_toggle_status set_clear_display_status set_skip_image_status : Bool → SlideshowOperationAction
  set_show_image_status set_update_interval_status : Bool → SlideshowOperationAction
  set_fetch_interval_status : Bool → SlideshowOperationAction
  set_display_refresh_interval : ℤ → SlideshowOperationAction
  set_update_night_mode_status set_fetch_night_mode_status : Bool → SlideshowOperationAction
  set_night_mode : NightMode → SlideshowOperationAction
  set_error : Option String → SlideshowOperationAction
  reset_operation : SlideshowOperationAction

abbrev pub start_time_of : ℕ → Bool → Option ℕ
start_time_of now b = if b then some now else none

unfoldable pub slideshow_operation_reducer :
    ℕ → SlideshowOperationState → SlideshowOperationAction → SlideshowOperationState
slideshow_operation_reducer now s (set_toggle_status b) = record s {
  is_toggling = b;
  start_time = start_time_of now b;
}
slideshow_operation_reducer now s (set_clear_display_status b) = record s {
  is_clearing_display = b;
  start_time = start_time_of now b;
}
slideshow_operation_reducer now s (set_skip_image_status b) = record s {
  is_skipping_image = b;
  start_time = start_time_of now b;
}
slideshow_operation_reducer now s (set_show_image_status b) = record s {
  is_showing_image = b;
  start_time = start_time_of now b;
}
slideshow_operation_reducer now s (set_update_interval_status b) = record s {
  is_updating_interval = b;
  start_time = start_time_of now b;
}
slideshow_operation_reducer now s (set_fetch_interval_status b) = record s {
  is_fetching_interval = b;
}
slideshow_operation_reducer now s (set_display_refresh_interval m) = record s {
  display_images_interval_mins = m;
}
slideshow_operation_reducer now s (set_update_night_mode_status b) = record s {
  is_updating_night_mode = b;
}
slideshow_operation_reducer now s (set_fetch_night_mode_status b) = record s {
  is_fetching_night_mode = b;
}
slideshow_operation_reducer now s (set_night_mode n) = record s {
  night_mode_enabled = n.enabled;
  night_start_hour = n.start_hour;
  night_end_hour = n.end_hour;
  night_interval_mins = n.interval_mins;
  night_style = n.style;
  night_mode_active_now = or_else n.active_now s.night_mode_active_now;
}
slideshow_operation_reducer now s (set_error e) = record s { error = e }
slideshow_operation_reducer now s reset_operation = record s {
  is_toggling = false;
  is_clearing_display = false;
  is_skipping_image = false;
  is_showing_image = false;
  is_updating_interval = false;
  is_fetching_interval = false;
  is_updating_night_mode = false;
  is_fetching_night_mode = false;
  error = none;
  start_time = none;
}

-- The test before each operation that may not overlap another.
unfoldable pub is_busy : SlideshowOperationState → Bool
is_busy s =
    s.is_toggling || s.is_clearing_display || s.is_skipping_image || s.is_showing_image
    || s.is_updating_interval

unfoldable pub select_is_any_operation_active : SlideshowOperationState → Bool
select_is_any_operation_active s =
    s.is_toggling || s.is_clearing_display || s.is_skipping_image || s.is_updating_interval
