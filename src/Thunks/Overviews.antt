-- ===== src/Thunks/Overviews.antt =====
-- The thunks of dashboard-frontend/frontend/src/store/frameInfo/frameInfo.Slice.tsx,
-- store/displayStats/displayStats.Slice.tsx and
-- store/displayCustomization/displayCustomization.Slice.tsx.
pub mod Carried
use shareframe_board.Common.{Bool, not, String, if◌then◌else◌}
use shareframe_board.Common.Text.{text_or}
use shareframe_board.Async.{Settled, returned, rejected_with}
use shareframe_board.FrameInfo.{FrameInfo, DisplayStats}
use shareframe_board.DisplayCustomization.{
  DisplayCustomization, fetch_display_customization, update_show_sender,
}
use shareframe_board.Snackbars.{success, error, add_loading_snackbar, remove_loading_snackbar}
use shareframe_board.Board.{Endpoint, Thrown, show_sender_body}
use shareframe_board.Store.{Action}
use shareframe_board.Thunk.{
  Prog, ret, ◌>>=◌, ◌>>◌, try_catch, finally, when, uuid, fetch_with_timeout, read_json,
  throw_error, message_of, get_from, post_to,
}
use shareframe_board.Thunk.Toolkit.{Toolkit}
use shareframe_board.Thunks.Updates.{data_or}
use shareframe_board.Thunks.Slideshow.Common.{snackbar, alert}

unfoldable pub infos_attempt : Prog (Settled FrameInfo)
infos_attempt = do
  response ← fetch_with_timeout (get_from Endpoint.system_info)
  payload ← read_json response
  data_or payload (do
    alert "Systeminfos konnten nicht geladen werden" error
    ret (rejected_with "Failed to fetch frame infos"))

unfoldable pub infos_failed : Thrown → Prog (Settled FrameInfo)
infos_failed e =
    alert "Systeminfos konnten nicht geladen werden" error
    >> ret (rejected_with (message_of "Unknown error" e))

unfoldable pub fetch_infos_creator : Prog (Settled FrameInfo)
fetch_infos_creator = try_catch infos_attempt infos_failed

unfoldable pub stats_attempt : Prog (Settled DisplayStats)
stats_attempt = do
  response ← fetch_with_timeout (get_from Endpoint.display_stats)
  payload ← read_json response
  data_or payload (do
    alert "Display-Statistik konnte nicht geladen werden" error
    ret (rejected_with "Failed to fetch display stats"))

unfoldable pub stats_failed : Thrown → Prog (Settled DisplayStats)
stats_failed e =
    alert "Display-Statistik konnte nicht geladen werden" error
    >> ret (rejected_with (message_of "Unknown error" e))

unfoldable pub fetch_stats_creator : Prog (Settled DisplayStats)
fetch_stats_creator = try_catch stats_attempt stats_failed

unfoldable pub customization_attempt : Prog (Settled DisplayCustomization)
customization_attempt = do
  response ← fetch_with_timeout (get_from Endpoint.display_customization)
  payload ← read_json response
  data_or payload (throw_error (text_or payload.message "Failed to fetch customization"))

unfoldable pub customization_failed : Thrown → Prog (Settled DisplayCustomization)
customization_failed e =
    alert "Anpassungen konnten nicht geladen werden" error
    >> ret (rejected_with (message_of "Unknown error" e))

unfoldable pub fetch_customization_creator : Prog (Settled DisplayCustomization)
fetch_customization_creator = try_catch customization_attempt customization_failed

unfoldable pub sender_attempt : Bool → Prog (Settled Bool)
sender_attempt show_sender = do
  response ←
      fetch_with_timeout (post_to Endpoint.display_customization (show_sender_body show_sender))
  payload ← read_json response
  when (not payload.success)
      (throw_error (text_or payload.message "Failed to update customization"))
  alert
      (if show_sender
        then "Der Name des Absenders wird ab dem nächsten Fotowechsel angezeigt"
        else "Der Name des Absenders wird ab dem nächsten Fotowechsel ausgeblendet")
      success
  ret (returned show_sender)

unfoldable pub sender_failed : Thrown → Prog (Settled Bool)
sender_failed e =
    alert "Anpassung konnte nicht gespeichert werden" error
    >> ret (rejected_with (message_of "Unknown error" e))

unfoldable pub show_sender_creator : Bool → Prog (Settled Bool)
show_sender_creator show_sender = do
  action_id ← uuid
  snackbar (add_loading_snackbar action_id "Anpassung wird gespeichert")
  finally (try_catch (sender_attempt show_sender) sender_failed)
      (snackbar (remove_loading_snackbar action_id))

module _ (toolkit : Toolkit) where
  unfoldable pub fetch_frame_infos_thunk : Prog (Unit {0})
  fetch_frame_infos_thunk = toolkit.create_async_thunk Action.frame_info fetch_infos_creator

  unfoldable pub fetch_display_stats_thunk : Prog (Unit {0})
  fetch_display_stats_thunk = toolkit.create_async_thunk Action.display_stats fetch_stats_creator

  unfoldable pub fetch_display_customization_thunk : Prog (Unit {0})
  fetch_display_customization_thunk =
      toolkit.create_async_thunk (λ x. Action.display_customization (fetch_display_customization x))
        fetch_customization_creator

  unfoldable pub update_show_sender_thunk : Bool → Prog (Unit {0})
  update_show_sender_thunk show_sender =
      toolkit.create_async_thunk (λ x. Action.display_customization (update_show_sender x))
        (show_sender_creator show_sender)
