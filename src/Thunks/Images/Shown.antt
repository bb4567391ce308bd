-- ===== src/Thunks/Images/Shown.antt =====
-- What the thunks for the pictures, the slideshow's status and the connection mode leave in the
-- state, for every answer of the board.
use shareframe_board.Common.{
  ℕ, ◌≡◌, true, false, Option, none, some, List, ◌∷◌, map, is_some, arith, or_else, if◌then◌else◌,
}
use shareframe_board.Common.Int.{ℤ}
use shareframe_board.Async.{pending}
use shareframe_board.SlideshowImages.{
  PlaybackMode, SlideshowImagesState, fetch_slideshow_images, update_playback_order,
  slideshow_images_reducer,
}
use shareframe_board.SlideshowStatus.{
  SlideshowStatusState, check_slideshow_status, slideshow_status_reducer,
}
use shareframe_board.ConnectionMode.{no_data, mode_of, connection_mode_reducer}
use shareframe_board.Board.{
  order_body, slideshow_images, slideshow_order, slideshow_status, SlideshowImagesPayload,
  StatusData,
}
use shareframe_board.Store.{Action, root_reducer}
use shareframe_board.Thunk.{
  Env, World, finished, run, apply, send, begin, delivered, get_from, post_to,
  call_fetch_slideshow_images,
}
use shareframe_board.Thunk.Waiting.{until_wait}
use shareframe_board.Thunk.Toolkit.{Toolkit}
use shareframe_board.Thunks.Auth.Session.{granted}
use shareframe_board.Thunks.Network.Saved.{carried}
use shareframe_board.Thunks.Images.{
  positive, image_of, images_of, images_attempt, fetch_images_creator, order_attempt, order_failed,
  update_order_creator, not_negative, checked_of, status_attempt, check_status_creator,
  mode_request, mode_attempt, fetch_mode_creator, fetch_slideshow_images_thunk,
  update_playback_order_thunk, check_slideshow_status_thunk, fetch_connection_mode,
}

-- The pictures after a fetch at a time, by what the board's answer carries and what was there.
abbrev pub AreShown :
    ℕ → SlideshowImagesState → Option SlideshowImagesPayload → SlideshowImagesState → Type 0
AreShown now old none s =
    (s.images ≡ old.images) × (s.last_fetched_at ≡ old.last_fetched_at) × (is_some s.error ≡ true)
AreShown now old (some d) s =
    (s.images ≡ map image_of d.images)
    × (s.current_image_id ≡ positive d.current_image_id)
    × (s.last_fetched_at ≡ some now)
    × (s.error ≡ none)

-- A fetch of the pictures shows those of the board's answer, in their order, if it carries any, and
-- otherwise leaves what was shown after the wait, with an error. Nothing loads any more.
pub fetch_slideshow_images_thunk-carried :
    (toolkit : Toolkit) (env : Env) (w : World)
    → let r = get_from slideshow_images in
      let v = send env r (apply (Action.slideshow_images (fetch_slideshow_images pending)) w) in
      let u = run env (fetch_slideshow_images_thunk toolkit) w in
      (u.0.requests ≡ r ∷ w.requests)
      × (u.0.state.slideshow_images.is_loading ≡ false)
      × AreShown v.clock v.state.slideshow_images
          (carried (delivered env r w.waits))
          u.0.state.slideshow_images
      × (u.1 ≡ finished tt)
unfolding fetch_slideshow_images_thunk fetch_images_creator images_attempt images_of run apply send
    root_reducer slideshow_images_reducer
fetch_slideshow_images_thunk-carried toolkit env w =
    rw
      (toolkit.course env (λ x. Action.slideshow_images (fetch_slideshow_images x))
        fetch_images_creator w)
      (ground arith)

-- A new order is sent once. The mode is the new one, and the pictures are fetched again, exactly if
-- the board grants it; otherwise the mode stays what it was after the wait.
pub update_playback_order_thunk-granted :
    (toolkit : Toolkit) (env : Env) (mode : PlaybackMode) (order : Option (List ℤ)) (w : World)
    → let r = post_to slideshow_order (order_body mode order) in
      let v = send env r (
        until_wait env
          (update_order_creator mode order)
          (apply (Action.slideshow_images (update_playback_order pending)) w)) in
      let u = (run env (update_playback_order_thunk toolkit mode order) w).0 in
      let ok = granted (delivered env r w.waits) in
      (u.requests ≡ r ∷ w.requests)
      × (u.calls ≡ (if ok then call_fetch_slideshow_images ∷ w.calls else w.calls))
      × (u.state.slideshow_images.is_updating_order ≡ false)
      × (u.state.slideshow_images.mode ≡ (if ok then some mode else v.state.slideshow_images.mode))
unfolding update_playback_order_thunk update_order_creator order_attempt order_failed until_wait run
    apply send begin root_reducer slideshow_images_reducer
update_playback_order_thunk-granted toolkit env mode order w =
    rw
      (toolkit.course env (λ x. Action.slideshow_images (update_playback_order x))
        (update_order_creator mode order) w)
      (ground arith)

-- The status after a check at a time, by what the board's answer carries.
abbrev pub IsChecked : ℕ → Option StatusData → SlideshowStatusState → Type 0
IsChecked now none s =
    (s.is_active ≡ false)
    × (s.image_count ≡ none)
    × (s.seconds_until_next ≡ none)
    × (is_some s.error ≡ true)
IsChecked now (some d) s =
    (s.is_active ≡ d.active)
    × (s.image_count ≡ not_negative d.image_count)
    × (s.seconds_until_next ≡ not_negative d.seconds_until_next)
    × (s.error ≡ none)
    × (s.last_checked_at ≡ some now)

-- A check of the slideshow shows what the board's answer carries, without the negative counts, or
-- an inactive slideshow and an error.
pub check_slideshow_status_thunk-carried :
    (toolkit : Toolkit) (env : Env) (w : World)
    → let r = get_from slideshow_status in
      let v = send env r (apply (Action.slideshow_status (check_slideshow_status pending)) w) in
      let u = run env (check_slideshow_status_thunk toolkit) w in
      (u.0.requests ≡ r ∷ w.requests)
      × (u.0.state.slideshow_status.is_loading ≡ false)
      × IsChecked v.clock (carried (delivered env r w.waits)) u.0.state.slideshow_status
      × (u.1 ≡ finished tt)
unfolding check_slideshow_status_thunk check_status_creator status_attempt checked_of run apply send
    root_reducer slideshow_status_reducer
check_slideshow_status_thunk-carried toolkit env w =
    rw
      (toolkit.course env (λ x. Action.slideshow_status (check_slideshow_status x))
        check_status_creator w)
      (ground arith)

-- A fetch of the connection mode takes over what the board's answer carries, with the defaults for
-- what it leaves out, if the board grants it; otherwise the mode stays what it was after the wait.
pub fetch_connection_mode-granted :
    (toolkit : Toolkit) (env : Env) (w : World)
    → let v = send env mode_request (apply (Action.connection_mode pending) w) in
      let reply = delivered env mode_request w.waits in
      let u = run env (fetch_connection_mode toolkit) w in
      (u.0.requests ≡ mode_request ∷ w.requests)
      × (u.0.state.connection_mode ≡ (
          if granted reply
          then mode_of v.clock (or_else (carried reply) no_data)
          else v.state.connection_mode))
      × (u.1 ≡ finished tt)
unfolding fetch_connection_mode fetch_mode_creator mode_attempt run apply send root_reducer
    connection_mode_reducer
fetch_connection_mode-granted toolkit env w =
    rw (toolkit.course env Action.connection_mode fetch_mode_creator w) (ground arith)
