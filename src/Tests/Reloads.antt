-- ===== src/Tests/Reloads.antt =====
-- A reload of the page during a skip.
use shareframe_board.Common.{◌≡◌, refl, Bool, true, false, [], if◌then◌else◌}
use shareframe_board.SlideshowOperation.{is_busy}
use shareframe_board.SlideshowOperation
use shareframe_board.Store.{RootState}
use shareframe_board.Store.Persisted.{
  Slice, Persistence, AgreeOn, is_blacklisted, transformed, snackbars, slideshow_operation,
  slideshow_status, timers, network, connection_mode, auth, frame_info, display_stats, updates,
  loading_wall, frame_logs, navigation, dialogs, services, slideshow_images, display_customization,
}
use shareframe_board.Store.Persisted.Reloaded.{reloaded, reloaded-open, reloaded-thunk_of}
use shareframe_board.Thunk.{World, run, finished}
use shareframe_board.Thunks.Slideshow.Operations.{thunk_of, toggle}
use shareframe_board.Dialogs
use shareframe_board.Tests.Base.{board, at_rest}

abbrev merged : Bool → RootState → RootState → RootState
merged is_wide stored initial = record (transformed is_wide stored) {
  slideshow_images = initial.slideshow_images;
  dialogs = initial.dialogs;
  display_customization = initial.display_customization;
}

merged_agrees :
    (is_wide : Bool) (stored initial : RootState) (slice : Slice)
    → AgreeOn slice
        (merged is_wide stored initial)
        (if is_blacklisted slice then initial else transformed is_wide stored)
merged_agrees is_wide stored initial snackbars = refl
merged_agrees is_wide stored initial slideshow_operation = refl
merged_agrees is_wide stored initial slideshow_status = refl
merged_agrees is_wide stored initial timers = refl
merged_agrees is_wide stored initial network = refl
merged_agrees is_wide stored initial connection_mode = refl
merged_agrees is_wide stored initial auth = refl
merged_agrees is_wide stored initial frame_info = refl
merged_agrees is_wide stored initial display_stats = refl
merged_agrees is_wide stored initial updates = refl
merged_agrees is_wide stored initial loading_wall = refl
merged_agrees is_wide stored initial frame_logs = refl
merged_agrees is_wide stored initial navigation = refl
merged_agrees is_wide stored initial dialogs = refl
merged_agrees is_wide stored initial services = refl
merged_agrees is_wide stored initial slideshow_images = refl
merged_agrees is_wide stored initial display_customization = refl

abbrev persistence : Persistence
persistence = record { rehydrate = merged; merges = merged_agrees }

abbrev skipping : World
skipping = record at_rest {
  state = record (at_rest.state) {
    slideshow_operation = record SlideshowOperation.initial_state { is_skipping_image = true };
  };
}

reloaded-open_example :
    let s = (reloaded persistence true 9000 skipping).state in
    (s.dialogs ≡ Dialogs.initial_state)
    × (s.navigation.sidebar.open_now ≡ skipping.state.navigation.sidebar.open_now)
reloaded-open_example = reloaded-open persistence true 9000 skipping

reloaded-thunk_of_example :
    let v = reloaded persistence false 9000 skipping in
    run (board 10 []) (thunk_of toggle) v ≡ (v, finished tt)
unfolding is_busy
reloaded-thunk_of_example =
    reloaded-thunk_of persistence false 9000 skipping (board 10 []) toggle refl
