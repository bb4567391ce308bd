-- ===== src/Thunks/Services.antt =====
-- The thunks of dashboard-frontend/frontend/src/store/services/services.Slice.tsx.
pub mod Restarting
use shareframe_board.Common.{Option, none, some, List, [], String, or_else, if◌then◌else◌}
use shareframe_board.Common.Text.{text_or}
use shareframe_board.Async.{Settled, returned, rejected_with}
use shareframe_board.Services.{ServiceStatus, fetch_services, restart_service}
use shareframe_board.Snackbars.{success, error, add_loading_snackbar, remove_loading_snackbar}
use shareframe_board.Board.{Endpoint, Thrown, ServerResponse, service_body}
use shareframe_board.BoardErrors.{board_error_message}
use shareframe_board.Store.{Action}
use shareframe_board.Thunk.{
  Prog, ret, ◌>>=◌, ◌>>◌, try_catch, finally, uuid, fetch_with_timeout, read_json, message_of,
  get_from, post_to,
}
use shareframe_board.Thunk.Toolkit.{Toolkit}
use shareframe_board.Thunks.Slideshow.Common.{snackbar, alert}

-- `payload.data?.services ?? []`.
abbrev pub services_in : ServerResponse (Option (List ServiceStatus)) → List ServiceStatus
services_in payload = elim payload.content [ none ↦ [] | some d ↦ or_else d [] ]

unfoldable pub services_attempt : Prog (Settled (List ServiceStatus))
services_attempt = do
  response ← fetch_with_timeout (get_from Endpoint.services)
  payload ← read_json response
  if payload.success
      then ret (returned (services_in payload))
      else ret (rejected_with (text_or payload.message "Failed to fetch services"))

unfoldable pub fetch_services_creator : Prog (Settled (List ServiceStatus))
fetch_services_creator =
    try_catch services_attempt (λ e. ret (rejected_with (message_of "Unknown error" e)))

unfoldable pub restart_service_attempt : String → String → Prog (Settled String)
restart_service_attempt loading_id id = do
  snackbar (add_loading_snackbar loading_id "Neustart wird angefordert")
  response ← fetch_with_timeout (post_to Endpoint.service_restart (service_body id))
  payload ← read_json response
  if payload.success then (alert "Dienst wird neu gestartet" success >> ret (returned id)) else (do
    alert
        (board_error_message "Dienst konnte nicht neu gestartet werden" (some response.status)
          payload.message)
        error
    ret (rejected_with (text_or payload.message "restart failed")))

unfoldable pub restart_service_failed : Thrown → Prog (Settled String)
restart_service_failed e =
    alert "Dienst konnte nicht neu gestartet werden" error
    >> ret (rejected_with (message_of "Unknown error" e))

unfoldable pub restart_service_creator : String → Prog (Settled String)
restart_service_creator id = do
  loading_id ← uuid
  finally (try_catch (restart_service_attempt loading_id id) restart_service_failed)
      (snackbar (remove_loading_snackbar loading_id))

module _ (toolkit : Toolkit) where
  unfoldable pub fetch_services_thunk : Prog (Unit {0})
  fetch_services_thunk =
      toolkit.create_async_thunk (λ x. Action.services (fetch_services x)) fetch_services_creator

  unfoldable pub restart_service_thunk : String → Prog (Unit {0})
  restart_service_thunk id =
      toolkit.create_async_thunk (λ x. Action.services (restart_service id x))
        (restart_service_creator id)
