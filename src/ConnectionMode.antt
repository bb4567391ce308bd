-- ===== src/ConnectionMode.antt =====
-- dashboard-frontend/frontend/src/store/connectionMode/connectionMode.Slice.tsx: the network mode
-- that the board publishes. `now` stands for `Date.now()`. The board's payload has every field
-- optional; a null field and a missing one are both `none`.
pub mod Laws
use shareframe_board.Common.{ℕ, ◌*◌, Bool, true, false, Option, none, some, List, String, or_else}
use shareframe_board.Common.Int.{ℤ, pos, ◌-ℤ◌}
use shareframe_board.Async.{Stage, pending, fulfilled, rejected}

pub data WifiMode : Type 0 where
  connecting connected ap : WifiMode

pub record ConnectionModeState : Type 0 where
  pub mode : WifiMode
  pub ssid : String
  pub internet : Bool
  pub ap_ssid : String
  pub ap_password : String
  pub server_connected : Option Bool
  pub server_offline_secs : ℕ
  pub server_last_contact_at : ℕ
  pub last_failed_secs_ago : Option ℕ
  pub last_failed_at : Option ℤ
  pub loaded : Bool

abbrev pub initial_state : ConnectionModeState
initial_state = record {
  mode = connecting;
  ssid = "";
  internet = false;
  ap_ssid = "";
  ap_password = "";
  server_connected = none;
  server_offline_secs = 0;
  server_last_contact_at = 0;
  last_failed_secs_ago = none;
  last_failed_at = none;
  loaded = false;
}

pub record ConnectionModeData : Type 0 where
  pub mode : Option WifiMode
  pub ssid : Option String
  pub internet : Option Bool
  pub ap_ssid : Option String
  pub ap_password : Option String
  pub server_connected : Option Bool
  pub server_offline_secs : Option ℕ
  pub server_last_contact_at : Option ℕ
  pub last_failed_secs_ago : Option ℕ

abbrev pub no_data : ConnectionModeData
no_data = record {
  mode = none;
  ssid = none;
  internet = none;
  ap_ssid = none;
  ap_password = none;
  server_connected = none;
  server_offline_secs = none;
  server_last_contact_at = none;
  last_failed_secs_ago = none;
}

-- The time of a failure `secs` seconds ago.
abbrev pub failed_at : ℕ → Option ℕ → Option ℤ
failed_at now none = none
failed_at now (some secs) = some (pos now -ℤ pos (secs * 1000))

unfoldable pub mode_of : ℕ → ConnectionModeData → ConnectionModeState
mode_of now d = record {
  mode = or_else d.mode connecting;
  ssid = or_else d.ssid "";
  internet = or_else d.internet false;
  ap_ssid = or_else d.ap_ssid "";
  ap_password = or_else d.ap_password "";
  server_connected = d.server_connected;
  server_offline_secs = or_else d.server_offline_secs 0;
  server_last_contact_at = or_else d.server_last_contact_at 0;
  last_failed_secs_ago = d.last_failed_secs_ago;
  last_failed_at = failed_at now d.last_failed_secs_ago;
  loaded = true;
}

-- The payload of the fulfilled action is the data of the answer, null as `none`.
unfoldable pub connection_mode_reducer :
    ℕ → ConnectionModeState → Stage (Option ConnectionModeData) → ConnectionModeState
connection_mode_reducer now s (fulfilled d) = mode_of now (or_else d no_data)
connection_mode_reducer now s _ = s
