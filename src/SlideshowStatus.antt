-- ===== src/SlideshowStatus.antt =====
-- dashboard-frontend/frontend/src/store/slideshowStatus/slideshowStatus.Slice.tsx: what the board
-- says of the running slideshow, as state and reducer. `now` stands for `Date.now()`.
use shareframe_board.Common.{ℕ, Bool, true, false, Option, none, some, String}
use shareframe_board.Common.Int.{ℤ}
use shareframe_board.Async.{Stage, pending, fulfilled, rejected}

pub data ShownState : Type 0 where
  empty image cleared : ShownState

-- `INowShowing` of types.slideshowImages.ts.
pub record NowShowing : Type 0 where
  pub seq : ℤ
  pub state : ShownState
  pub image_id : Option ℤ
  pub sender : Option String

pub record SlideshowStatusState : Type 0 where
  pub is_active : Bool
  pub loop_started : Bool
  pub is_refreshing : Bool
  pub image_count : Option ℤ
  pub seconds_until_next : Option ℤ
  pub now_showing : Option NowShowing
  pub is_loading : Bool
  pub error : Option String
  pub last_checked_at : Option ℕ

abbrev pub initial_state : SlideshowStatusState
initial_state = record {
  is_active = false;
  loop_started = false;
  is_refreshing = false;
  image_count = none;
  seconds_until_next = none;
  now_showing = none;
  is_loading = false;
  error = none;
  last_checked_at = none;
}

-- What the thunk makes of the board's answer.
pub record CheckedStatus : Type 0 where
  pub now_showing : Option NowShowing
  pub active : Bool
  pub loop_started : Bool
  pub is_refreshing : Bool
  pub image_count : Option ℤ
  pub seconds_until_next : Option ℤ

pub data SlideshowStatusAction : Type 0 where
  check_slideshow_status : Stage CheckedStatus → SlideshowStatusAction
  reset_status : SlideshowStatusAction

unfoldable pub slideshow_status_reducer :
    ℕ → SlideshowStatusState → SlideshowStatusAction → SlideshowStatusState
slideshow_status_reducer now s (check_slideshow_status pending) = record s { is_loading = true }
slideshow_status_reducer now s (check_slideshow_status (fulfilled c)) = record s {
  is_active = c.active;
  loop_started = c.loop_started;
  is_refreshing = c.is_refreshing;
  image_count = c.image_count;
  seconds_until_next = c.seconds_until_next;
  now_showing = c.now_showing;
  is_loading = false;
  error = none;
  last_checked_at = some now;
}
slideshow_status_reducer now s (check_slideshow_status (rejected r)) = record s {
  is_loading = false;
  error = r.payload;
  is_active = false;
  loop_started = false;
  is_refreshing = false;
  image_count = none;
  seconds_until_next = none;
}
slideshow_status_reducer now s reset_status = initial_state
