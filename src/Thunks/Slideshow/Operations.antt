-- ===== src/Thunks/Slideshow/Operations.antt =====
-- The operations of slideshowOperation.Slice.tsx that exclude one another, by name.
use shareframe_board.Common.{Bool}
use shareframe_board.Common.Int.{ℤ}
use shareframe_board.SlideshowOperation.{SlideshowOperationState}
use shareframe_board.Thunk.{Prog}
use shareframe_board.Thunks.Slideshow.Interval.{update_display_images_loop_interval}
use shareframe_board.Thunks.Slideshow.Skip.{skip_image_thunk}
use shareframe_board.Thunks.Slideshow.Show.{show_image_thunk}
use shareframe_board.Thunks.Slideshow.Clear.{clear_display_thunk}
use shareframe_board.Thunks.Slideshow.Toggle.{toggle_slideshow_thunk}

-- Those that wait for one answer.
pub data Short : Type 0 where
  skip_image clear : Short
  show_image update_interval : ℤ → Short

pub data Operation : Type 0 where
  short : Short → Operation
  toggle : Operation

abbrev pub short_thunk : Short → Prog (Unit {0})
short_thunk skip_image = skip_image_thunk
short_thunk clear = clear_display_thunk
short_thunk (show_image id) = show_image_thunk id
short_thunk (update_interval interval_mins) = update_display_images_loop_interval interval_mins

abbrev pub thunk_of : Operation → Prog (Unit {0})
thunk_of (short o) = short_thunk o
thunk_of toggle = toggle_slideshow_thunk

abbrev pub flag_of : Short → SlideshowOperationState → Bool
flag_of skip_image s = s.is_skipping_image
flag_of clear s = s.is_clearing_display
flag_of (show_image id) s = s.is_showing_image
flag_of (update_interval interval_mins) s = s.is_updating_interval
