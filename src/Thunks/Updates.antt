-- ===== src/Thunks/Updates.antt =====
-- The thunks of dashboard-frontend/frontend/src/store/updates/updates.Slice.tsx.
pub mod Started
use shareframe_board.Common.{Option, none, some, List, String, if◌then◌else◌}
use shareframe_board.Async.{Settled, returned, rejected_with}
use shareframe_board.Updates.{
  Release, UpdateStatus, UpdateHistoryEntry, fetch_latest_release, perform_update,
  fetch_update_status, fetch_update_history,
}
use shareframe_board.LoadingWall.{loading_wall_visible}
use shareframe_board.Snackbars.{success, error, add_loading_snackbar, remove_loading_snackbar}
use shareframe_board.Board.{Endpoint, Thrown, ServerResponse, empty_body}
use shareframe_board.Store.{Action}
use shareframe_board.Thunk.{
  Prog, ret, navigating, ◌>>=◌, ◌>>◌, try_catch, finally, dispatch, uuid, fetch_with_timeout,
  read_json, message_of, get_from, post_to,
}
use shareframe_board.Thunk.Toolkit.{Toolkit}
use shareframe_board.Thunks.Slideshow.Common.{snackbar, alert}

unfoldable pub release_attempt : Prog (Settled (Option Release))
release_attempt = do
  response ← fetch_with_timeout (get_from Endpoint.latest_release)
  payload ← read_json response
  if payload.success then ret (returned payload.content) else (do
    alert "Updates konnten nicht gesucht werden" error
    ret (rejected_with "Failed to fetch latest release"))

unfoldable pub release_failed : Thrown → Prog (Settled (Option Release))
release_failed e =
    alert "Updates konnten nicht gesucht werden" error
    >> ret (rejected_with (message_of "Unknown error" e))

unfoldable pub fetch_release_creator : Prog (Settled (Option Release))
fetch_release_creator = try_catch release_attempt release_failed

abbrev pub update_wall : String
update_wall =
    "Das Update wird installiert. Die Einstellungen sind solange nicht erreichbar und der Bilderrahmen startet danach neu. Lade diese Seite in ein paar Minuten neu."

unfoldable pub update_attempt : String → Prog (Settled (Unit {0}))
update_attempt snackbar_id = do
  snackbar (add_loading_snackbar snackbar_id "Update wird gestartet")
  response ← fetch_with_timeout (post_to Endpoint.perform_update empty_body)
  payload ← read_json response
  if payload.success
      then (do
        alert "Update gestartet" success
        navigating "/" (ret tt)
        dispatch (Action.loading_wall (loading_wall_visible update_wall))
        ret (returned tt))
      else (do
        alert "Update konnte nicht gestartet werden" error
        ret (rejected_with "Failed start update process"))

unfoldable pub update_failed : Thrown → Prog (Settled (Unit {0}))
update_failed e =
    alert "Update konnte nicht gestartet werden" error
    >> ret (rejected_with (message_of "Unknown error" e))

unfoldable pub perform_update_creator : Prog (Settled (Unit {0}))
perform_update_creator = do
  snackbar_id ← uuid
  finally (try_catch (update_attempt snackbar_id) update_failed)
      (snackbar (remove_loading_snackbar snackbar_id))

-- `if (payload.success && payload.data) return payload.data;`, and else what follows.
abbrev pub data_or : {D : Type 0} → ServerResponse D → Prog (Settled D) → Prog (Settled D)
data_or payload p =
    if payload.success then (elim payload.content [ none ↦ p | some d ↦ ret (returned d) ]) else p

unfoldable pub update_status_attempt : Prog (Settled UpdateStatus)
update_status_attempt = do
  response ← fetch_with_timeout (get_from Endpoint.update_status)
  payload ← read_json response
  data_or payload (ret (rejected_with "Failed to fetch update status"))

unfoldable pub fetch_update_status_creator : Prog (Settled UpdateStatus)
fetch_update_status_creator =
    try_catch update_status_attempt (λ e. ret (rejected_with (message_of "Unknown error" e)))

unfoldable pub history_attempt : Prog (Settled (List UpdateHistoryEntry))
history_attempt = do
  response ← fetch_with_timeout (get_from Endpoint.update_history)
  payload ← read_json response
  data_or payload (do
    alert "Update-Verlauf konnte nicht geladen werden" error
    ret (rejected_with "Failed to fetch update history"))

unfoldable pub update_history_failed : Thrown → Prog (Settled (List UpdateHistoryEntry))
update_history_failed e =
    alert "Update-Verlauf konnte nicht geladen werden" error
    >> ret (rejected_with (message_of "Unknown error" e))

unfoldable pub fetch_update_history_creator : Prog (Settled (List UpdateHistoryEntry))
fetch_update_history_creator = try_catch history_attempt update_history_failed

module _ (toolkit : Toolkit) where
  unfoldable pub fetch_latest_release_thunk : Prog (Unit {0})
  fetch_latest_release_thunk =
      toolkit.create_async_thunk (λ x. Action.updates (fetch_latest_release x))
        fetch_release_creator

  unfoldable pub perform_update_thunk : Prog (Unit {0})
  perform_update_thunk =
      toolkit.create_async_thunk (λ x. Action.updates (perform_update x)) perform_update_creator

  unfoldable pub fetch_update_status_thunk : Prog (Unit {0})
  fetch_update_status_thunk =
      toolkit.create_async_thunk (λ x. Action.updates (fetch_update_status x))
        fetch_update_status_creator

  unfoldable pub fetch_update_history_thunk : Prog (Unit {0})
  fetch_update_history_thunk =
      toolkit.create_async_thunk (λ x. Action.updates (fetch_update_history x))
        fetch_update_history_creator
