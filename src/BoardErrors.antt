-- ===== src/BoardErrors.antt =====
-- dashboard-frontend/frontend/src/common/utils/errors/boardErrors.ts: the text that the user sees
-- for a failed answer of the board.
pub mod Laws
use shareframe_board.Common.{
  ℕ, Bool, Option, none, some, List, [], ◌∷◌, String, str_eq, ◌==◌, or_else, if◌then◌else◌,
}
use shareframe_board.Timers.Dict.{lookup}

abbrev pub known_messages : List (String × String)
known_messages =
    ("OTP invalid", "Der Einmal-Code stimmt nicht oder ist abgelaufen.")
    ∷ (
      "OTP verification failed",
      "Der Einmal-Code konnte gerade nicht geprüft werden. Versuche es gleich noch einmal.",
    )
    ∷ ("Passwort ungültig", "Das Passwort stimmt nicht.")
    ∷ ("Aktuelles Passwort ungültig", "Das aktuelle Passwort stimmt nicht.")
    ∷ (
      "Zu viele Fehlversuche. Bitte warte kurz und versuche es erneut.",
      "Zu viele Fehlversuche. Bitte warte kurz und versuche es erneut.",
    )
    ∷ (
      "Ungültiges AP-Passwort (8–63 ASCII-Zeichen)",
      "Das Hotspot-Passwort braucht 8 bis 63 ASCII-Zeichen.",
    )
    ∷ (
      "Invalid SSID (max 32 bytes, no control chars)",
      "Der Netzwerkname ist ungültig. Er darf höchstens 32 Zeichen haben.",
    )
    ∷ (
      "Invalid password (8-63 chars, no control chars)",
      "Das WLAN-Passwort braucht 8 bis 63 Zeichen.",
    )
    ∷ ("Invalid network name", "Der Netzwerkname ist ungültig.")
    ∷ (
      "Not in access point mode",
      "Das geht nur, solange der Bilderrahmen seinen Hotspot bereitstellt.",
    )
    ∷ ("Update service not reachable", "Der Update-Dienst ist gerade nicht erreichbar.")
    ∷ ("Failed to check for updates", "Die Suche nach Updates ist gerade nicht möglich.")
    ∷ ("Picture not found", "Das Foto ist nicht mehr auf dem Bilderrahmen.")
    ∷ ("Picture file missing", "Das Foto ist nicht mehr auf dem Bilderrahmen.")
    ∷ (
      "Dashboard service unavailable",
      "Der Bilderrahmen startet seine Einstellungen gerade neu. Versuche es gleich noch einmal.",
    )
    ∷ (
      "Dashboard service timed out",
      "Der Bilderrahmen antwortet gerade nicht. Versuche es gleich noch einmal.",
    )
    ∷ []

abbrev pub offline_message : String
offline_message = "Du bist offline. Prüfe die WLAN-Verbindung deines Geräts."

abbrev pub unreachable_text : String
unreachable_text = "Der Bilderrahmen ist gerade nicht erreichbar."

unfoldable pub status_message : ℕ → Option String
status_message status =
    if status == 429
    then some "Zu viele Versuche. Bitte warte kurz."
    else if status == 413
    then some "Die Datei ist zu groß."
    else if status == 404
    then some "Das gibt es nicht mehr."
    else if status == 403
    then some "Dafür fehlt dir die Berechtigung."
    else none

-- `message && KNOWN_MESSAGES[message]`: an empty message is itself the value. (The names that every
-- object inherits, such as `toString`, are left out.)
unfoldable pub known_text : Option String → Option String
known_text none = none
known_text (some message) = if str_eq message "" then some "" else lookup message known_messages

abbrev pub or_option : Option String → Option String → Option String
or_option none other = other
or_option (some text) other = some text

-- `boardErrorMessage(fallback, response, message)`, of the response its status.
unfoldable pub board_error_message : String → Option ℕ → Option String → String
board_error_message fallback none message = or_else (known_text message) fallback
board_error_message fallback (some status) message =
    or_else (or_option (known_text message) (status_message status)) fallback

-- `online` stands for `navigator.onLine`.
unfoldable pub unreachable_message : Bool → String
unreachable_message online = if online then unreachable_text else offline_message
