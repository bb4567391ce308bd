-- ===== src/SlideshowImages.antt =====
-- dashboard-frontend/frontend/src/store/slideshowImages/slideshowImages.Slice.tsx: the pictures of
-- the frame and their order, as state and reducer. `now` stands for `Date.now()`.
use shareframe_board.Common.{ℕ, Bool, true, false, Option, none, some, List, [], String}
use shareframe_board.Common.Int.{ℤ}
use shareframe_board.Async.{Stage, pending, fulfilled, rejected}

pub data PlaybackMode : Type 0 where
  shuffle chronological newest_first custom : PlaybackMode

-- `ISlideshowImage` of types.slideshowImages.ts.
pub record SlideshowImage : Type 0 where
  pub id : ℤ
  pub sender : String
  pub received_at : Option ℤ
  pub expires_at : ℤ
  pub width : ℤ
  pub height : ℤ
  pub size_bytes : ℤ
  pub position : ℤ

pub record SlideshowImagesState : Type 0 where
  pub images : List SlideshowImage
  pub mode : Option PlaybackMode
  pub current_image_id : Option ℤ
  pub is_loading : Bool
  pub is_updating_order : Bool
  pub error : Option String
  pub last_fetched_at : Option ℕ

abbrev pub initial_state : SlideshowImagesState
initial_state = record {
  images = [];
  mode = none;
  current_image_id = none;
  is_loading = false;
  is_updating_order = false;
  error = none;
  last_fetched_at = none;
}

pub record FetchedImages : Type 0 where
  pub mode : PlaybackMode
  pub current_image_id : Option ℤ
  pub images : List SlideshowImage

pub data SlideshowImagesAction : Type 0 where
  fetch_slideshow_images : Stage FetchedImages → SlideshowImagesAction
  update_playback_order : Stage PlaybackMode → SlideshowImagesAction

unfoldable pub slideshow_images_reducer :
    ℕ → SlideshowImagesState → SlideshowImagesAction → SlideshowImagesState
slideshow_images_reducer now s (fetch_slideshow_images pending) = record s { is_loading = true }
slideshow_images_reducer now s (fetch_slideshow_images (fulfilled d)) = record s {
  is_loading = false;
  error = none;
  mode = some d.mode;
  current_image_id = d.current_image_id;
  images = d.images;
  last_fetched_at = some now;
}
slideshow_images_reducer now s (fetch_slideshow_images (rejected r)) = record s {
  is_loading = false;
  error = r.payload;
}
slideshow_images_reducer now s (update_playback_order pending) = record s {
  is_updating_order = true;
}
slideshow_images_reducer now s (update_playback_order (fulfilled mode)) = record s {
  is_updating_order = false;
  mode = some mode;
}
slideshow_images_reducer now s (update_playback_order (rejected r)) = record s {
  is_updating_order = false;
}
