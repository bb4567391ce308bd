-- ===== src/Main/NetworkBanner.antt =====
-- dashboard-frontend/frontend/src/common/components/networkStatusBanner.tsx, the banner about the
-- network; main/network/hotspotCard.tsx, the card of the hotspot; common/utils/boardAddress.ts.
pub mod Shown
use shareframe_board.Common.{
  ℕ, ◌*◌, Bool, true, false, not, ◌&&◌, ◌||◌, Option, none, some, List, [], ◌∷◌, String, str_eq,
  ltb, ◌==◌, is_some, if◌then◌else◌,
}
use shareframe_board.Common.Int.{ℤ, pos, ltb_ℤ}
use shareframe_board.Common.Text.{◌<>◌}
use shareframe_board.ConnectionMode.{ConnectionModeState, WifiMode, connecting, connected, ap}
use shareframe_board.Network.{NetworkState}
use shareframe_board.Main.Durations.{format_duration}

abbrev pub server_grace_secs : ℕ
server_grace_secs = 120

-- The string `text`, or `fallback` for an empty one.
abbrev pub non_empty_or : String → String → String
non_empty_or text fallback = if str_eq text "" then fallback else text

unfoldable pub server_down : ConnectionModeState → Bool
server_down s =
    elim s.server_connected [ none ↦ false | some c ↦ not c ]
    && (s.server_last_contact_at == 0 || ltb server_grace_secs s.server_offline_secs)

pub record Banner : Type 0 where
  pub bgcolor : String
  pub title : String
  pub detail : String

unfoldable pub hotspot_banner : ConnectionModeState → Banner
hotspot_banner s = record {
  bgcolor = "error.main";
  title = "Hotspot aktiv";
  detail =
      "WLAN „"
      <> non_empty_or s.ap_ssid "shareframe-board"
      <> "“"
      <> (if str_eq s.ap_password "" then "" else " · Passwort: " <> s.ap_password)
      <> ". Füge unter „Netzwerk“ ein WLAN hinzu und wähle „Jetzt verbinden“.";
}

unfoldable pub connecting_banner : ConnectionModeState → Banner
connecting_banner s = record {
  bgcolor = "warning.main";
  title = "Verbindet …";
  detail =
      if str_eq s.ssid ""
      then "Suche nach bekannten Netzwerken."
      else "Verbindung zu „" <> s.ssid <> "“ wird hergestellt.";
}

unfoldable pub server_banner : ConnectionModeState → Banner
server_banner s = record {
  bgcolor = "warning.main";
  title = "Server nicht erreichbar";
  detail =
      if ltb 0 s.server_last_contact_at
      then "Letzter Kontakt vor "
        <> format_duration (s.server_offline_secs * 1000)
        <> ". Neue Fotos kommen an, sobald die Verbindung wieder steht."
      else "Noch keine Verbindung zum Server. Neue Fotos kommen an, sobald die Verbindung steht.";
}

unfoldable pub internet_banner : ConnectionModeState → Banner
internet_banner s = record {
  bgcolor = "warning.main";
  title = "Kein Internet";
  detail =
      if str_eq s.ssid ""
      then "Keine Internetverbindung."
      else "Mit „" <> s.ssid <> "“ verbunden, aber keine Internetverbindung.";
}

abbrev pub is_connected_mode : WifiMode → Bool
is_connected_mode connected = true
is_connected_mode _ = false

-- The banner for a mode, once one is shown at all.
unfoldable pub banner_of : ConnectionModeState → Banner
banner_of s = elim s.mode [
  | ap ↦ hotspot_banner s
  | connecting ↦ connecting_banner s
  | connected ↦ if s.internet then server_banner s else internet_banner s
]

unfoldable pub network_status_banner : ConnectionModeState → Option Banner
network_status_banner s =
    if not s.loaded
    then none
    else if is_connected_mode s.mode && s.internet && not (server_down s)
    then none
    else some (banner_of s)

abbrev pub board_address : String → String
board_address ap_ssid = "http://" <> non_empty_or ap_ssid "shareframe-board" <> ".local"

-- The card of the hotspot. `connect_requested_at` is when the board was last asked to connect.
unfoldable pub failed_since_request : Option ℕ → Option ℤ → Bool
failed_since_request (some requested) (some failed) = not (ltb_ℤ failed (pos requested))
failed_since_request _ _ = false

unfoldable pub is_connecting : Option ℕ → Option ℤ → Bool
is_connecting requested failed = is_some requested && not (failed_since_request requested failed)

unfoldable pub is_connect_disabled : Bool → NetworkState → ConnectionModeState → Bool
is_connect_disabled is_connected n m =
    n.loading
    || not is_connected
    || is_connecting n.connect_requested_at m.last_failed_at
    || elim n.saved_networks [ [] ↦ true | s ∷ rest ↦ false ]

pub data HotspotAlert : Type 0 where
  being_connected : String → HotspotAlert
  none_reachable : String → HotspotAlert
  no_alert : HotspotAlert

unfoldable pub hotspot_alert : NetworkState → ConnectionModeState → HotspotAlert
hotspot_alert n m =
    if is_connecting n.connect_requested_at m.last_failed_at
    then being_connected (board_address m.ap_ssid)
    else elim m.last_failed_secs_ago [
      | none ↦ no_alert
      | some secs ↦ none_reachable (format_duration (secs * 1000))
    ]
