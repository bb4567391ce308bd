-- ===== src/FrameLogs.antt =====
-- dashboard-frontend/frontend/src/store/frameLogs/frameLogs.Slice.tsx: the logs of the board and
-- their cache, as state and reducer. The thunk of the file is in Thunks/FrameLogs. `now` stands for
-- `Date.now()`.
use shareframe_board.Common.{
  ℕ, ◌-◌, ◌*◌, Bool, true, false, not, ◌&&◌, Option, none, some, List, String, str_eq, ltb, ◌==◌,
  if◌then◌else◌,
}
use shareframe_board.Async.{Stage, pending, fulfilled, rejected}

-- `ServiceType` of types.frameLogs.ts.
pub data ServiceType : Type 0 where
  websocket display dashboard heartbeat update system events : ServiceType

-- The values of the enumeration.
abbrev pub service_text : ServiceType → String
service_text websocket = "websocket"
service_text display = "display"
service_text dashboard = "dashboard"
service_text heartbeat = "heartbeat"
service_text update = "update"
service_text system = "system"
service_text events = "events"

pub record LogsRequestParams : Type 0 where
  pub service_name : ServiceType
  pub since_timestamp : Option String
  pub lines : Option ℕ
  pub follow : Option Bool

pub record LogsData : Type 0 where
  pub service : String
  pub period : String
  pub timestamp : String
  pub log_count : ℕ
  pub logs : List String
  pub last_fetched : Option ℕ

-- `cached_params` holds the parameters where the source holds their text by `JSON.stringify`.
pub record LogsState : Type 0 where
  pub logs_data : Option LogsData
  pub loading : Bool
  pub error : Option String
  pub last_fetch_timestamp : Option ℕ
  pub cached_params : Option LogsRequestParams

abbrev pub initial_state : LogsState
initial_state = record {
  logs_data = none;
  loading = false;
  error = none;
  last_fetch_timestamp = none;
  cached_params = none;
}

abbrev pub cache_duration : ℕ
cache_duration = 30 * 1000

-- The actions of a fetch carry its parameters, `action.meta.arg`.
pub data LogsAction : Type 0 where
  clear_logs : LogsAction
  fetch_frame_logs : LogsRequestParams → Stage LogsData → LogsAction

unfoldable pub frame_logs_reducer : ℕ → LogsState → LogsAction → LogsState
frame_logs_reducer now s clear_logs = record s {
  logs_data = none;
  error = none;
  last_fetch_timestamp = none;
  cached_params = none;
}
frame_logs_reducer now s (fetch_frame_logs params pending) = record s {
  loading = true;
  error = none;
}
frame_logs_reducer now s (fetch_frame_logs params (fulfilled logs)) = record s {
  loading = false;
  logs_data = some logs;
  error = none;
  last_fetch_timestamp = some now;
  cached_params = some params;
}
frame_logs_reducer now s (fetch_frame_logs params (rejected r)) = record s {
  loading = false;
  error = r.payload;
}

abbrev pub same_text : Option String → Option String → Bool
same_text none none = true
same_text (some a) (some b) = str_eq a b
same_text _ _ = false

abbrev pub same_number : Option ℕ → Option ℕ → Bool
same_number none none = true
same_number (some a) (some b) = a == b
same_number _ _ = false

abbrev pub same_flag : Option Bool → Option Bool → Bool
same_flag none none = true
same_flag (some true) (some b) = b
same_flag (some false) (some b) = not b
same_flag _ _ = false

-- `cachedParams === paramsString`: the texts agree if the parameters do.
unfoldable pub same_params : LogsRequestParams → LogsRequestParams → Bool
same_params p q =
    str_eq (service_text p.service_name) (service_text q.service_name)
    && same_text p.since_timestamp q.since_timestamp
    && same_number p.lines q.lines
    && same_flag p.follow q.follow

-- `lastFetchTimestamp && currentTime - lastFetchTimestamp < CACHE_DURATION`.
unfoldable pub is_recent : ℕ → Option ℕ → Bool
is_recent now none = false
is_recent now (some t) = not (t == 0) && ltb (now - t) cache_duration

-- The logs that are kept and still good for these parameters.
unfoldable pub cached_logs : ℕ → LogsRequestParams → LogsState → Option LogsData
cached_logs now params s = elim s.cached_params [
  | none ↦ none
  | some p ↦
      if same_params p params && is_recent now s.last_fetch_timestamp then s.logs_data else none
]
