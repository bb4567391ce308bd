-- ===== src/Thunks/Power.antt =====
-- dashboard-frontend/frontend/src/store/piPower/piPower.Slice.tsx: restart, shutdown and factory
-- reset of the board. The loop of `pollHealth` takes fuel for its longest wait, in rounds of three
-- seconds (Power/Polling).
pub mod Polling
pub mod Kept
pub mod Reload
pub mod Commands
use shareframe_board.Common.{
  ℕ, zero, suc, ◌+◌, ◌-◌, ◌*◌, ◌/◌, Bool, true, false, not, ◌&&◌, none, some, Option, String, ltb,
  leb, or_else, if◌then◌else◌,
}
use shareframe_board.Async.{Settled, returned, rejected_with}
use shareframe_board.Snackbars.{error, add_loading_snackbar, remove_loading_snackbar}
use shareframe_board.LoadingWall.{loading_wall_visible}
use shareframe_board.Board.{
  Endpoint, Thrown, Request, Response, ServerResponse, empty_body, clear_display, system_health,
}
use shareframe_board.Store.{Action}
use shareframe_board.Thunk.{
  Prog, ret, sleeping, navigating, reloading, ◌>>=◌, ◌>>◌, try_catch, finally, when, dispatch, uuid,
  date_now, fetch_with_timeout, read_json, get_from, post_to, message_of,
}
use shareframe_board.Thunk.Toolkit.{Toolkit}
use shareframe_board.Thunks.Slideshow.Common.{snackbar, alert}

pub data PowerAnswer : Type 0 where
  accepted rejected : PowerAnswer

pub data Target : Type 0 where
  up down : Target

abbrev pub power_request : Endpoint → Request
power_request e = record (post_to e empty_body) { timeout = 8000 }

abbrev pub per_request_timeout : ℕ
per_request_timeout = 3000

abbrev pub health_interval : ℕ
health_interval = 3000

abbrev pub health_request : Request
health_request = record (get_from system_health) { timeout = per_request_timeout }

unfoldable pub send_power_command : Endpoint → Prog PowerAnswer
send_power_command e =
    try_catch
      (do
        response ← fetch_with_timeout (power_request e)
        payload ← read_json response
        ret (if payload.success then accepted else rejected))
      (λ _. ret accepted)

-- `response.ok`.
abbrev pub is_ok : {D : Type 0} → Response D → Bool
is_ok response = leb 200 response.status && ltb response.status 300

-- `!!payload?.data?.running`.
abbrev pub running_in : ServerResponse (Option Bool) → Bool
running_in payload = elim payload.content [ none ↦ false | some d ↦ or_else d false ]

unfoldable pub is_reachable : Prog Bool
is_reachable =
    try_catch
      (do
        response ← fetch_with_timeout health_request
        if is_ok response
            then (do payload ← read_json response; ret (running_in payload))
            else ret false)
      (λ _. ret false)

-- Whether an answer about the board's reach is what is waited for.
abbrev pub hits : Target → Bool → Bool
hits up reachable = reachable
hits down reachable = not reachable

abbrev pub streak_after : Bool → ℕ → ℕ
streak_after hit streak = if hit then suc streak else 0

unfoldable pub poll_loop : ℕ → Target → ℕ → ℕ → ℕ → ℕ → Prog Bool
poll_loop zero target max_wait consecutive start streak = ret false
poll_loop (suc fuel) target max_wait consecutive start streak = do
  now ← date_now
  if ltb (now - start) max_wait
      then (do
        reachable ← is_reachable
        if leb consecutive (streak_after (hits target reachable) streak)
            then ret true
            else sleeping health_interval (
                poll_loop fuel target max_wait consecutive start
                  (streak_after (hits target reachable) streak)))
      else ret false

-- Rounds of the loop that cover the wait.
abbrev pub poll_rounds : ℕ → ℕ
poll_rounds max_wait = max_wait / health_interval + 1

unfoldable pub poll_health : Target → ℕ → ℕ → Prog Bool
poll_health target max_wait consecutive = do
  start ← date_now
  poll_loop (poll_rounds max_wait) target max_wait consecutive start 0

abbrev pub home_url : String
home_url = "/"

abbrev show_loading_wall : String → Prog (Unit {0})
show_loading_wall message = dispatch (Action.loading_wall (loading_wall_visible message))

-- The catch blocks, which differ in their text.
unfoldable pub power_failed : String → Thrown → Prog (Settled (Unit {0}))
power_failed message e = alert message error >> ret (rejected_with (message_of "Unknown error" e))

-- The finally blocks.
abbrev pub power_last : String → Prog (Unit {0})
power_last snackbar_id = snackbar (remove_loading_snackbar snackbar_id)

-- `if (backUp) window.location.reload();`
unfoldable pub reload_when : Bool → Prog (Settled (Unit {0}))
reload_when back_up = when back_up (reloading (ret tt)) >> ret (returned tt)

abbrev pub restart_wall : String
restart_wall =
    "Der Bilderrahmen wird neu gestartet. Die Seite lädt von selbst neu, sobald er wieder erreichbar ist."

-- From the accepted command on.
unfoldable pub restart_accepted : Prog (Settled (Unit {0}))
restart_accepted = navigating home_url (do
  show_loading_wall restart_wall
  _ ← poll_health down 60000 1
  back_up ← poll_health up 180000 1
  reload_when back_up)

unfoldable pub restart_answered : PowerAnswer → Prog (Settled (Unit {0}))
restart_answered rejected = do
  alert "Bilderrahmen konnte nicht neu gestartet werden" error
  ret (rejected_with "Neustartprozess fehlgeschlagen")
restart_answered accepted = restart_accepted

unfoldable pub restart_attempt : String → Prog (Settled (Unit {0}))
restart_attempt snackbar_id = do
  snackbar (add_loading_snackbar snackbar_id "Bilderrahmen wird neu gestartet")
  result ← send_power_command Endpoint.restart_pi
  restart_answered result

unfoldable pub restart_creator : Prog (Settled (Unit {0}))
restart_creator = do
  snackbar_id ← uuid
  finally
      (try_catch (restart_attempt snackbar_id)
        (power_failed "Bilderrahmen konnte nicht neu gestartet werden"))
      (power_last snackbar_id)

unfoldable pub shutdown_accepted : Prog (Settled (Unit {0}))
shutdown_accepted = navigating home_url (do
  show_loading_wall "Der Bilderrahmen wird heruntergefahren …"
  _ ← poll_health down 120000 2
  show_loading_wall
      "Der Bilderrahmen ist ausgeschaltet. Zum Einschalten trenne den Strom kurz und stecke ihn wieder ein, er startet dann von selbst."
  ret (returned tt))

unfoldable pub shutdown_attempt : String → Prog (Settled (Unit {0}))
shutdown_attempt snackbar_id = do
  snackbar (add_loading_snackbar snackbar_id "Bilderrahmen wird heruntergefahren")
  try_catch (do _ ← fetch_with_timeout (power_request clear_display); ret tt) (λ _. ret tt)
  result ← send_power_command Endpoint.shutdown_pi
  elim result [
    | rejected ↦ do
      alert "Bilderrahmen konnte nicht heruntergefahren werden" error
      ret (rejected_with "Herunterfahrprozess fehlgeschlagen")
    | accepted ↦ shutdown_accepted
  ]

unfoldable pub shutdown_creator : Prog (Settled (Unit {0}))
shutdown_creator = do
  snackbar_id ← uuid
  finally
      (try_catch (shutdown_attempt snackbar_id)
        (power_failed "Bilderrahmen konnte nicht heruntergefahren werden"))
      (power_last snackbar_id)

unfoldable pub reset_accepted : Prog (Settled (Unit {0}))
reset_accepted = navigating home_url (do
  show_loading_wall "Der Bilderrahmen wird auf Werkseinstellungen zurückgesetzt …"
  _ ← poll_health down 120000 2
  show_loading_wall
      "Der Bilderrahmen ist auf Werkseinstellungen zurückgesetzt und startet im Einrichtungsmodus. Verbinde dich mit seinem Hotspot, um ihn neu einzurichten."
  ret (returned tt))

unfoldable pub reset_attempt : String → Prog (Settled (Unit {0}))
reset_attempt snackbar_id = do
  snackbar (add_loading_snackbar snackbar_id "Bilderrahmen wird zurückgesetzt")
  result ← send_power_command Endpoint.factory_reset
  elim result [
    | rejected ↦ do
      alert "Bilderrahmen konnte nicht zurückgesetzt werden" error
      ret (rejected_with "Zurücksetzen fehlgeschlagen")
    | accepted ↦ reset_accepted
  ]

unfoldable pub factory_reset_creator : Prog (Settled (Unit {0}))
factory_reset_creator = do
  snackbar_id ← uuid
  finally
      (try_catch (reset_attempt snackbar_id)
        (power_failed "Bilderrahmen konnte nicht zurückgesetzt werden"))
      (power_last snackbar_id)

module _ (toolkit : Toolkit) where
  unfoldable pub restart_pi : Prog (Unit {0})
  restart_pi = toolkit.create_async_thunk Action.pi_power restart_creator

  unfoldable pub shutdown_pi : Prog (Unit {0})
  shutdown_pi = toolkit.create_async_thunk Action.pi_power shutdown_creator

  unfoldable pub factory_reset_pi : Prog (Unit {0})
  factory_reset_pi = toolkit.create_async_thunk Action.pi_power factory_reset_creator
