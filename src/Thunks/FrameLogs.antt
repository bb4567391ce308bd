-- ===== src/Thunks/FrameLogs.antt =====
-- The thunk of dashboard-frontend/frontend/src/store/frameLogs/frameLogs.Slice.tsx.
pub mod Cached
pub mod Lines
use shareframe_board.Common.{
  ℕ, not, Option, none, some, List, [], ◌∷◌, ◌++◌, String, str_eq, ◌==◌, or_else, length, filter,
  if◌then◌else◌,
}
use shareframe_board.Common.Dates.{to_iso_string}
use shareframe_board.Common.Split.{split}
use shareframe_board.Common.Text.{show, text_or}
use shareframe_board.Async.{Settled, returned, rejected_with}
use shareframe_board.FrameLogs.{
  LogsRequestParams, LogsData, service_text, cached_logs, fetch_frame_logs,
}
use shareframe_board.Snackbars.{error, add_loading_snackbar, remove_loading_snackbar}
use shareframe_board.Board.{Endpoint, Thrown, Request, ServerResponse, LogsPayload, query_of}
use shareframe_board.Store.{Action}
use shareframe_board.Thunk.{
  Prog, ret, ◌>>=◌, ◌>>◌, try_catch, finally, uuid, get_state, date_now, fetch_with_timeout,
  read_json, message_of, get_from,
}
use shareframe_board.Thunk.Toolkit.{Toolkit}
use shareframe_board.Thunks.Slideshow.Common.{snackbar, alert}

-- `if (text) queryParams.append(name, text)`.
abbrev pub text_param : String → Option String → List (String × String)
text_param name none = []
text_param name (some text) = if str_eq text "" then [] else (name, text) ∷ []

-- `if (n) queryParams.append(name, n.toString())`.
abbrev pub number_param : String → Option ℕ → List (String × String)
number_param name none = []
number_param name (some n) = if n == 0 then [] else (name, show n) ∷ []

unfoldable pub logs_query : LogsRequestParams → List (String × String)
logs_query params =
    text_param "service_name" (some (service_text params.service_name))
    ++ text_param "since_timestamp" params.since_timestamp
    ++ number_param "lines" params.lines

abbrev pub logs_request : LogsRequestParams → Request
logs_request params = record (get_from Endpoint.frame_logs) {
  content = query_of (logs_query params);
}

-- `text.split('\n').filter(Boolean)`.
unfoldable pub log_lines : String → List String
log_lines text = filter (λ line. not (str_eq line "")) (split 10 text)

-- `payload.data?.logs ?? ''` and `payload.data?.service_name ?? ''`.
abbrev pub logs_text : ServerResponse LogsPayload → String
logs_text payload = elim payload.content [ none ↦ "" | some d ↦ or_else d.logs "" ]

abbrev pub logs_service : ServerResponse LogsPayload → String
logs_service payload = elim payload.content [ none ↦ "" | some d ↦ or_else d.service_name "" ]

unfoldable pub logs_of : ℕ → ServerResponse LogsPayload → LogsData
logs_of current_time payload =
    let lines = log_lines (logs_text payload) in
    record {
      service = logs_service payload;
      period = "";
      timestamp = to_iso_string current_time;
      log_count = length lines;
      logs = lines;
      last_fetched = some current_time;
    }

-- The request, where the logs that are kept do not serve.
unfoldable pub request_logs : ℕ → LogsRequestParams → Prog (Settled LogsData)
request_logs current_time params = do
  response ← fetch_with_timeout (logs_request params)
  payload ← read_json response
  if payload.success then ret (returned (logs_of current_time payload)) else (do
    alert "Protokolle konnten nicht geladen werden" error
    ret (rejected_with (text_or payload.message "Failed to fetch logs")))

unfoldable pub logs_attempt : String → LogsRequestParams → Prog (Settled LogsData)
logs_attempt loading_bar_id params = do
  snackbar (add_loading_snackbar loading_bar_id "Protokolle werden geladen")
  state ← get_state
  current_time ← date_now
  elim (cached_logs current_time params state.frame_logs) [
    | some logs ↦ ret (returned logs)
    | none ↦ request_logs current_time params
  ]

unfoldable pub logs_failed : Thrown → Prog (Settled LogsData)
logs_failed e =
    alert "Protokolle konnten nicht geladen werden" error
    >> ret (rejected_with (message_of "Unknown error" e))

unfoldable pub fetch_logs_creator : LogsRequestParams → Prog (Settled LogsData)
fetch_logs_creator params = do
  loading_bar_id ← uuid
  finally (try_catch (logs_attempt loading_bar_id params) logs_failed)
      (snackbar (remove_loading_snackbar loading_bar_id))

module _ (toolkit : Toolkit) where
  unfoldable pub fetch_frame_logs_thunk : LogsRequestParams → Prog (Unit {0})
  fetch_frame_logs_thunk params =
      toolkit.create_async_thunk (λ x. Action.frame_logs (fetch_frame_logs params x))
        (fetch_logs_creator params)
