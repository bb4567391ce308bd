-- ===== src/SlideshowOperation/Flags.antt =====
-- The selector of slideshowOperation.Slice.tsx for a running operation against the guard of its
-- thunks.
use shareframe_board.Common.{◌≡◌, ◌||◌, arith}
use shareframe_board.SlideshowOperation.{
  SlideshowOperationState, is_busy, select_is_any_operation_active,
}

-- The guard turns operations away exactly while the selector reports one, or a picture is being
-- shown: the selector leaves `isShowingImage` out.
pub is_busy-select :
    (s : SlideshowOperationState)
    → is_busy s ≡ (select_is_any_operation_active s || s.is_showing_image)
unfolding is_busy select_is_any_operation_active
is_busy-select s = ground arith
