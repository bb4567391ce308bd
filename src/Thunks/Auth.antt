-- ===== src/Thunks/Auth.antt =====
-- The thunks of dashboard-frontend/frontend/src/store/auth/auth.Slice.tsx: what each does between
-- its pending action and its last one. `online` stands for `navigator.onLine`.
pub mod Session
use shareframe_board.Common.{Bool, true, false, Option, none, some, String, or_else, if◌then◌else◌}
use shareframe_board.Common.Text.{text_or}
use shareframe_board.Async.{Settled, returned, rejected_with}
use shareframe_board.Auth.{check_auth_status, login, logout, change_password}
use shareframe_board.Snackbars.{success, error, add_loading_snackbar, remove_loading_snackbar}
use shareframe_board.Board.{
  Endpoint, Thrown, Response, ServerResponse, RequestBody, empty_body, otp_body, password_body,
  change_password_body,
}
use shareframe_board.BoardErrors.{board_error_message, unreachable_message}
use shareframe_board.Store.{Action}
use shareframe_board.Thunk.{
  Prog, ret, raise, ◌>>=◌, ◌>>◌, try_catch, uuid, fetch_with_timeout, read_json, get_from, post_to,
}
use shareframe_board.Thunk.Toolkit.{Toolkit}
use shareframe_board.Thunks.Slideshow.Common.{snackbar, alert}

pub data LoginCredentials : Type 0 where
  otp password : String → LoginCredentials

abbrev pub credentials_of : LoginCredentials → RequestBody
credentials_of (otp code) = otp_body code
credentials_of (password word) = password_body word

-- `payload?.data?.authenticated ?? false`.
abbrev pub authenticated_in : ServerResponse (Option Bool) → Bool
authenticated_in payload = elim payload.content [ none ↦ false | some d ↦ or_else d false ]

unfoldable pub check_status : Prog (Settled Bool)
check_status = do
  response ← fetch_with_timeout (get_from Endpoint.auth_status)
  payload ← read_json response
  ret (returned (authenticated_in payload))

unfoldable pub login_attempt : String → LoginCredentials → Prog (Settled Bool)
login_attempt snackbar_id credentials = do
  snackbar (add_loading_snackbar snackbar_id "Du wirst angemeldet")
  response ← fetch_with_timeout (post_to Endpoint.login (credentials_of credentials))
  payload ← read_json response
  snackbar (remove_loading_snackbar snackbar_id)
  if payload.success then (alert "Angemeldet" success >> ret (returned true)) else (do
    alert (board_error_message "Anmeldung fehlgeschlagen" (some response.status) payload.message)
        error
    ret (rejected_with (text_or payload.message "Authentication failed")))

unfoldable pub login_failed : Bool → String → Thrown → Prog (Settled Bool)
login_failed online snackbar_id e = do
  snackbar (remove_loading_snackbar snackbar_id)
  alert (unreachable_message online) error
  ret (rejected_with "Authentication failed")

unfoldable pub login_creator : Bool → LoginCredentials → Prog (Settled Bool)
login_creator online credentials = do
  snackbar_id ← uuid
  try_catch (login_attempt snackbar_id credentials) (login_failed online snackbar_id)

unfoldable pub change_attempt : String → String → String → Prog (Settled Bool)
change_attempt snackbar_id current_password new_password = do
  snackbar (add_loading_snackbar snackbar_id "Passwort wird geändert")
  response ←
      fetch_with_timeout
        (post_to Endpoint.change_password (change_password_body current_password new_password))
  payload ← read_json response
  snackbar (remove_loading_snackbar snackbar_id)
  if payload.success then (alert "Passwort geändert" success >> ret (returned true)) else (do
    alert
        (board_error_message "Passwort konnte nicht geändert werden" (some response.status)
          payload.message)
        error
    ret (rejected_with (text_or payload.message "Password change failed")))

unfoldable pub change_failed : Bool → String → Thrown → Prog (Settled Bool)
change_failed online snackbar_id e = do
  snackbar (remove_loading_snackbar snackbar_id)
  alert (unreachable_message online) error
  ret (rejected_with "Password change failed")

unfoldable pub change_password_creator : Bool → String → String → Prog (Settled Bool)
change_password_creator online current_password new_password = do
  snackbar_id ← uuid
  try_catch (change_attempt snackbar_id current_password new_password)
      (change_failed online snackbar_id)

unfoldable pub logout_attempt : Prog (Settled Bool)
logout_attempt = do
  _ ← fetch_with_timeout (post_to Endpoint.logout empty_body)
  alert "Abgemeldet" success
  ret (returned true)

unfoldable pub logout_failed : Bool → Thrown → Prog (Settled Bool)
logout_failed online e = alert (unreachable_message online) error >> raise e

unfoldable pub logout_creator : Bool → Prog (Settled Bool)
logout_creator online = try_catch logout_attempt (logout_failed online)

module _ (toolkit : Toolkit) where
  unfoldable pub check_auth_status_thunk : Prog (Unit {0})
  check_auth_status_thunk =
      toolkit.create_async_thunk (λ x. Action.auth (check_auth_status x)) check_status

  unfoldable pub login_thunk : Bool → LoginCredentials → Prog (Unit {0})
  login_thunk online credentials =
      toolkit.create_async_thunk (λ x. Action.auth (login x)) (login_creator online credentials)

  unfoldable pub change_password_thunk : Bool → String → String → Prog (Unit {0})
  change_password_thunk online current_password new_password =
      toolkit.create_async_thunk (λ x. Action.auth (change_password x))
        (change_password_creator online current_password new_password)

  unfoldable pub logout_thunk : Bool → Prog (Unit {0})
  logout_thunk online =
      toolkit.create_async_thunk (λ x. Action.auth (logout x)) (logout_creator online)
