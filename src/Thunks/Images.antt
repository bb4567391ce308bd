-- ===== src/Thunks/Images.antt =====
-- The thunks that read the board's slideshow: dashboard-frontend/frontend/src/store/slideshowImages,
-- slideshowStatus and connectionMode.
pub mod Shown
use shareframe_board.Common.{
  Bool, true, false, not, Option, none, some, List, map, String, str_eq, or_else, if◌then◌else◌,
}
use shareframe_board.Common.Int.{ℤ, pos, negsuc, ltb_ℤ}
use shareframe_board.Common.Text.{◌<>◌, text_or}
use shareframe_board.Async.{Settled, returned, rejected_with}
use shareframe_board.SlideshowImages.{
  PlaybackMode, shuffle, chronological, newest_first, custom, SlideshowImage, FetchedImages,
  fetch_slideshow_images, update_playback_order,
}
use shareframe_board.SlideshowStatus.{NowShowing, CheckedStatus, check_slideshow_status}
use shareframe_board.ConnectionMode.{ConnectionModeData}
use shareframe_board.Snackbars.{success, error, add_loading_snackbar, remove_loading_snackbar}
use shareframe_board.Board.{
  Endpoint, Thrown, order_body, SlideshowImagePayload, SlideshowImagesPayload, StatusData,
  ShownData, slideshow_images, slideshow_order, slideshow_status, Request,
}
use shareframe_board.BoardErrors.{board_error_message}
use shareframe_board.Store.{Action}
use shareframe_board.Thunk.{
  Prog, ret, ◌>>=◌, ◌>>◌, try_catch, finally, uuid, start, fetch_with_timeout, read_json, data_of,
  message_of, get_from, post_to, call_fetch_slideshow_images,
}
use shareframe_board.Thunk.Toolkit.{Toolkit}
use shareframe_board.Thunks.Slideshow.Common.{snackbar, alert}

-- `n > 0 ? n : null`.
abbrev pub positive : ℤ → Option ℤ
positive n = if ltb_ℤ (pos 0) n then some n else none

-- `(typeof n === 'number' && n >= 0) ? n : null`.
abbrev pub not_negative : Option ℤ → Option ℤ
not_negative none = none
not_negative (some n) = if ltb_ℤ n (pos 0) then none else some n

unfoldable pub image_of : SlideshowImagePayload → SlideshowImage
image_of img = record {
  id = img.id;
  sender = img.sender;
  received_at = positive img.received_at;
  expires_at = img.expires_at;
  width = img.width;
  height = img.height;
  size_bytes = img.size_bytes;
  position = img.position;
}

unfoldable pub images_of : SlideshowImagesPayload → FetchedImages
images_of d = record {
  mode = d.mode;
  current_image_id = positive d.current_image_id;
  images = map image_of d.images;
}

unfoldable pub images_attempt : Prog (Settled FetchedImages)
images_attempt = do
  response ← fetch_with_timeout (get_from slideshow_images)
  payload ← read_json response
  if payload.success
      then elim payload.content [
        | none ↦ ret (rejected_with (text_or payload.message "Fotos konnten nicht geladen werden"))
        | some d ↦ ret (returned (images_of d))
      ]
      else ret (rejected_with (text_or payload.message "Fotos konnten nicht geladen werden"))

unfoldable pub fetch_images_creator : Prog (Settled FetchedImages)
fetch_images_creator =
    try_catch images_attempt (λ e. ret (rejected_with (message_of "Unknown error" e)))

unfoldable pub mode_label : PlaybackMode → String
mode_label shuffle = "Zufällige Reihenfolge"
mode_label chronological = "Chronologische Reihenfolge"
mode_label newest_first = "Neueste zuerst"
mode_label custom = "Eigene Reihenfolge"

unfoldable pub order_attempt : String → PlaybackMode → Option (List ℤ) → Prog (Settled PlaybackMode)
order_attempt loading_id mode custom_order = do
  snackbar (add_loading_snackbar loading_id "Reihenfolge wird gespeichert")
  response ← fetch_with_timeout (post_to slideshow_order (order_body mode custom_order))
  payload ← read_json response
  if payload.success
      then (do
        alert (mode_label mode <> " ab dem nächsten Foto") success
        start call_fetch_slideshow_images
        ret (returned mode))
      else (do
        alert
            (board_error_message "Reihenfolge konnte nicht gespeichert werden"
              (some response.status) payload.message)
            error
        ret (rejected_with (text_or payload.message "update failed")))

unfoldable pub order_failed : Thrown → Prog (Settled PlaybackMode)
order_failed e =
    alert "Reihenfolge konnte nicht gespeichert werden" error
    >> ret (rejected_with (message_of "Unknown error" e))

unfoldable pub update_order_creator : PlaybackMode → Option (List ℤ) → Prog (Settled PlaybackMode)
update_order_creator mode custom_order = do
  loading_id ← uuid
  finally (try_catch (order_attempt loading_id mode custom_order) order_failed)
      (snackbar (remove_loading_snackbar loading_id))

-- `shown.sender ? shown.sender : null`.
abbrev pub sender_of : Option String → Option String
sender_of none = none
sender_of (some name) = if str_eq name "" then none else some name

unfoldable pub shown_of : ShownData → NowShowing
shown_of d = record {
  seq = d.seq;
  state = d.state;
  image_id = positive d.image_id;
  sender = sender_of d.sender;
}

unfoldable pub checked_of : StatusData → CheckedStatus
checked_of d = record {
  now_showing = elim d.now_showing [ none ↦ none | some shown ↦ some (shown_of shown) ];
  active = d.active;
  loop_started = or_else d.loop_started false;
  is_refreshing = or_else d.refreshing false;
  image_count = not_negative d.image_count;
  seconds_until_next = not_negative d.seconds_until_next;
}

unfoldable pub status_attempt : Prog (Settled CheckedStatus)
status_attempt = do
  response ← fetch_with_timeout (get_from slideshow_status)
  payload ← read_json response
  if payload.success
      then (do d ← data_of "seconds_until_next" payload; ret (returned (checked_of d)))
      else ret (rejected_with "Failed to fetch slideshow status")

unfoldable pub check_status_creator : Prog (Settled CheckedStatus)
check_status_creator =
    try_catch status_attempt (λ e. ret (rejected_with (message_of "Unknown error occurred" e)))

abbrev pub mode_request : Request
mode_request = record (get_from Endpoint.connection_mode) { timeout = 60000 }

unfoldable pub mode_attempt : Prog (Settled (Option ConnectionModeData))
mode_attempt = do
  response ← fetch_with_timeout mode_request
  payload ← read_json response
  if payload.success
      then ret (returned payload.content)
      else ret (rejected_with "Unexpected response")

unfoldable pub fetch_mode_creator : Prog (Settled (Option ConnectionModeData))
fetch_mode_creator =
    try_catch mode_attempt (λ e. ret (rejected_with (message_of "Unknown error" e)))

module _ (toolkit : Toolkit) where
  unfoldable pub fetch_slideshow_images_thunk : Prog (Unit {0})
  fetch_slideshow_images_thunk =
      toolkit.create_async_thunk (λ x. Action.slideshow_images (fetch_slideshow_images x))
        fetch_images_creator

  unfoldable pub update_playback_order_thunk : PlaybackMode → Option (List ℤ) → Prog (Unit {0})
  update_playback_order_thunk mode custom_order =
      toolkit.create_async_thunk (λ x. Action.slideshow_images (update_playback_order x))
        (update_order_creator mode custom_order)

  unfoldable pub check_slideshow_status_thunk : Prog (Unit {0})
  check_slideshow_status_thunk =
      toolkit.create_async_thunk (λ x. Action.slideshow_status (check_slideshow_status x))
        check_status_creator

  unfoldable pub fetch_connection_mode : Prog (Unit {0})
  fetch_connection_mode = toolkit.create_async_thunk Action.connection_mode fetch_mode_creator
