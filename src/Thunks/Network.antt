-- ===== src/Thunks/Network.antt =====
-- The thunks of dashboard-frontend/frontend/src/store/network/network.Slice.tsx: what each does
-- between its pending action and its last one.
pub mod Saved
use shareframe_board.Common.{Bool, true, false, ◌&&◌, ◌||◌, some, String, str_eq, if◌then◌else◌}
use shareframe_board.Common.Text.{text_or}
use shareframe_board.Async.{Settled, returned, rejected_with}
use shareframe_board.ConnectionMode.{WifiMode, connecting, connected, ap}
use shareframe_board.Network.{
  NetworkCredentials, NetworkData, fetch_network_data, add_network, forget_network,
  change_ap_password, connect_to_saved_networks,
}
use shareframe_board.Snackbars.{success, error, add_loading_snackbar, remove_loading_snackbar}
use shareframe_board.Board.{
  Endpoint, Thrown, empty_body, credentials_body, ssid_body, password_body,
}
use shareframe_board.BoardErrors.{board_error_message}
use shareframe_board.Store.{Action}
use shareframe_board.Thunk.{
  Prog, ret, ◌>>=◌, ◌>>◌, try_catch, finally, uuid, start, get_state, fetch_with_timeout, read_json,
  data_of, message_of, get_from, post_to, call_fetch_network_data,
}
use shareframe_board.Thunk.Toolkit.{Toolkit}
use shareframe_board.Thunks.Slideshow.Common.{snackbar, alert}

unfoldable pub fetch_attempt : Prog (Settled NetworkData)
fetch_attempt = do
  conn_response ← fetch_with_timeout (get_from Endpoint.connection_status)
  conn_payload ← read_json conn_response
  networks_response ← fetch_with_timeout (get_from Endpoint.connection_saved_networks)
  networks_payload ← read_json networks_response
  if conn_payload.success && networks_payload.success
      then (do
        current ← data_of "connection_name" conn_payload
        saved ← data_of "networks" networks_payload
        ret (returned (record { current_connection = current; saved_networks = saved })))
      else ret (rejected_with "Failed to fetch network data")

unfoldable pub fetch_failed : Thrown → Prog (Settled NetworkData)
fetch_failed e =
    alert "Netzwerke konnten nicht geladen werden" error
    >> ret (rejected_with (message_of "Unknown error" e))

unfoldable pub fetch_creator : Prog (Settled NetworkData)
fetch_creator = try_catch fetch_attempt fetch_failed

-- The texts for a network that the board has saved.
unfoldable pub saved_text : WifiMode → String
saved_text ap = "WLAN gespeichert. Mit „Jetzt verbinden“ wechselt der Bilderrahmen ins WLAN."
saved_text connecting = "WLAN hinzugefügt"
saved_text connected = "WLAN hinzugefügt"

unfoldable pub add_attempt : String → NetworkCredentials → Prog (Settled String)
add_attempt loading_id credentials = do
  snackbar (add_loading_snackbar loading_id "WLAN wird hinzugefügt")
  response ← fetch_with_timeout (post_to Endpoint.connection_connect (credentials_body credentials))
  payload ← read_json response
  if payload.success
      then (do
        state ← get_state
        alert (saved_text state.connection_mode.mode) success
        start call_fetch_network_data
        ret (returned credentials.ssid))
      else (do
        alert
            (board_error_message "WLAN konnte nicht hinzugefügt werden" (some response.status)
              payload.message)
            error
        ret (rejected_with "Failed to add network"))

-- The catch blocks, which differ in their text.
unfoldable pub network_failed : {A : Type 0} → String → Thrown → Prog (Settled A)
network_failed message e = alert message error >> ret (rejected_with (message_of "Unknown error" e))

-- The finally blocks.
abbrev pub network_last : String → Prog (Unit {0})
network_last loading_id = snackbar (remove_loading_snackbar loading_id)

-- `!credentials.ssid || !credentials.password`.
abbrev pub is_incomplete : NetworkCredentials → Bool
is_incomplete credentials = str_eq credentials.ssid "" || str_eq credentials.password ""

unfoldable pub add_creator : NetworkCredentials → Prog (Settled String)
add_creator credentials =
    if is_incomplete credentials
    then (do
      alert "Gib Netzwerkname und Passwort ein" error
      ret (rejected_with "Missing credentials"))
    else (uuid >>= λ loading_id.
        finally
          (try_catch (add_attempt loading_id credentials)
            (network_failed "WLAN konnte nicht hinzugefügt werden"))
          (network_last loading_id))

unfoldable pub forget_attempt : String → String → Prog (Settled String)
forget_attempt loading_id ssid = do
  snackbar (add_loading_snackbar loading_id "WLAN wird entfernt")
  response ← fetch_with_timeout (post_to Endpoint.connection_forget (ssid_body ssid))
  payload ← read_json response
  if payload.success
      then (do alert "WLAN entfernt" success; start call_fetch_network_data; ret (returned ssid))
      else (do
        alert
            (board_error_message "WLAN konnte nicht entfernt werden" (some response.status)
              payload.message)
            error
        ret (rejected_with "Failed to forget network"))

unfoldable pub forget_creator : String → Prog (Settled String)
forget_creator ssid = do
  loading_id ← uuid
  finally
      (try_catch (forget_attempt loading_id ssid)
        (network_failed "WLAN konnte nicht entfernt werden"))
      (network_last loading_id)

unfoldable pub ap_attempt : String → String → Prog (Settled Bool)
ap_attempt loading_id password = do
  snackbar (add_loading_snackbar loading_id "Hotspot-Passwort wird geändert")
  response ← fetch_with_timeout (post_to Endpoint.ap_password (password_body password))
  payload ← read_json response
  if payload.success
      then (alert "Hotspot-Passwort geändert" success >> ret (returned true))
      else (do
        alert
            (board_error_message "Hotspot-Passwort konnte nicht geändert werden"
              (some response.status) payload.message)
            error
        ret (rejected_with (text_or payload.message "Failed to change AP password")))

unfoldable pub ap_creator : String → Prog (Settled Bool)
ap_creator password = do
  loading_id ← uuid
  finally
      (try_catch (ap_attempt loading_id password)
        (network_failed "Hotspot-Passwort konnte nicht geändert werden"))
      (network_last loading_id)

unfoldable pub connect_attempt : Prog (Settled Bool)
connect_attempt = do
  response ← fetch_with_timeout (post_to Endpoint.connection_apply empty_body)
  payload ← read_json response
  if payload.success then ret (returned true) else (do
    alert
        (board_error_message "Verbindung konnte nicht gestartet werden" (some response.status)
          payload.message)
        error
    ret (rejected_with (text_or payload.message "Failed to connect")))

unfoldable pub connect_creator : Prog (Settled Bool)
connect_creator =
    try_catch connect_attempt (network_failed "Verbindung konnte nicht gestartet werden")

module _ (toolkit : Toolkit) where
  unfoldable pub fetch_network_data_thunk : Prog (Unit {0})
  fetch_network_data_thunk =
      toolkit.create_async_thunk (λ x. Action.network (fetch_network_data x)) fetch_creator

  unfoldable pub add_network_thunk : NetworkCredentials → Prog (Unit {0})
  add_network_thunk credentials =
      toolkit.create_async_thunk (λ x. Action.network (add_network x)) (add_creator credentials)

  unfoldable pub forget_network_thunk : String → Prog (Unit {0})
  forget_network_thunk ssid =
      toolkit.create_async_thunk (λ x. Action.network (forget_network x)) (forget_creator ssid)

  unfoldable pub change_ap_password_thunk : String → Prog (Unit {0})
  change_ap_password_thunk password =
      toolkit.create_async_thunk (λ x. Action.network (change_ap_password x)) (ap_creator password)

  unfoldable pub connect_to_saved_networks_thunk : Prog (Unit {0})
  connect_to_saved_networks_thunk =
      toolkit.create_async_thunk (λ x. Action.network (connect_to_saved_networks x)) connect_creator
