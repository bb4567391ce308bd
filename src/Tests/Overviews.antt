-- ===== src/Tests/Overviews.antt =====
-- The fetches of the logs, the updates and the board's own figures at concrete inputs.
use shareframe_board.Common.{◌+◌, ◌≡◌, refl, true, false, not, none, some, [], ◌∷◌, All, str_eq}
use shareframe_board.Common.Dates.{to_iso_string, civil_of, pad_start}
use shareframe_board.Common.Text.{show, show_fuel, digit}
use shareframe_board.Common.Split.{concat, has_char}
use shareframe_board.Async.{pending}
use shareframe_board.FrameLogs.{
  same_params, is_recent, LogsRequestParams, LogsData, display, cached_logs,
}
use shareframe_board.Updates.{perform_update}
use shareframe_board.Snackbars.Loading.{has_loading}
use shareframe_board.Board.{Endpoint, empty_body}
use shareframe_board.Store.{Action}
use shareframe_board.Thunk.{World, run, send, apply, delivered, get_from, post_to, finished}
use shareframe_board.Thunk.Waiting.{until_wait}
use shareframe_board.Thunks.Auth.Session.{granted}
use shareframe_board.Thunks.FrameLogs.{log_lines, fetch_frame_logs_thunk}
use shareframe_board.Thunks.FrameLogs.Cached.{fetch_frame_logs_thunk-renewed}
use shareframe_board.Thunks.FrameLogs.Lines.{log_lines-concat}
use shareframe_board.Thunks.Updates.{perform_update_creator, perform_update_thunk}
use shareframe_board.Thunks.Updates.Started.{IsWalled, perform_update_thunk-granted}
use shareframe_board.Thunks.Overviews.Carried.{
  history, overview_thunk, source_of, begun, IsOverviewed, overview_thunk-carried,
}
use shareframe_board.Tests.Base.{board, at_rest}
use shareframe_board.Tests.Toolkit.{toolkit}

abbrev of_display : LogsRequestParams
of_display = record {
  service_name = display;
  since_timestamp = none;
  lines = some 100;
  follow = none;
}

abbrev kept : LogsData
kept = record {
  service = "display";
  period = "";
  timestamp = "1970-01-01T00:00:00.500Z";
  log_count = 1;
  logs = "started" ∷ [];
  last_fetched = some 500;
}

-- Half a second after the logs were fetched.
abbrev with_logs : World
with_logs = record at_rest {
  state = record (at_rest.state) {
    frame_logs = record {
      logs_data = some kept;
      loading = false;
      error = none;
      last_fetch_timestamp = some 500;
      cached_params = some of_display;
    };
  };
}

fetch_frame_logs_thunk-renewed_example :
    let u = run (board 20 []) (fetch_frame_logs_thunk toolkit of_display) with_logs in
    cached_logs (1000 + 29999) of_display u.0.state.frame_logs ≡ some kept
unfolding cached_logs same_params is_recent
fetch_frame_logs_thunk-renewed_example =
    fetch_frame_logs_thunk-renewed toolkit (board 20 []) of_display with_logs kept 29999 refl refl
      refl

log_lines-concat_example :
    (concat (log_lines "a\n\nb\n") ≡ "ab")
    × All (λ line. not (str_eq line "") ≡ true) (log_lines "a\n\nb\n")
    × All (λ line. has_char 10 line ≡ false) (log_lines "a\n\nb\n")
log_lines-concat_example = log_lines-concat "a\n\nb\n"

perform_update_thunk-granted_example :
    let r = post_to Endpoint.perform_update empty_body in
    let v = send (board 20 []) r (
      until_wait
        (board 20 [])
        perform_update_creator
        (apply (Action.updates (perform_update pending)) at_rest)) in
    let u = run (board 20 []) (perform_update_thunk toolkit) at_rest in
    (u.0.requests ≡ r ∷ [])
    × IsWalled (granted (delivered (board 20 []) r 0)) v u.0
    × (has_loading ((board 20 []).fresh_uuid 0) u.0.state.snackbars.loading ≡ false)
    × (u.1 ≡ finished tt)
perform_update_thunk-granted_example = perform_update_thunk-granted toolkit (board 20 []) at_rest

overview_thunk-carried_example :
    let r = get_from (source_of history) in
    let v = send (board 20 []) r (apply (begun history) at_rest) in
    let u = run (board 20 []) (overview_thunk toolkit history) at_rest in
    (u.0.requests ≡ r ∷ [])
    × IsOverviewed history (delivered (board 20 []) r 0) v.state u.0.state
    × (u.1 ≡ finished tt)
overview_thunk-carried_example = overview_thunk-carried toolkit (board 20 []) history at_rest

iso_text : to_iso_string 1700000000123 ≡ "2023-11-14T22:13:20.123Z"
unfolding to_iso_string civil_of pad_start show show_fuel digit
iso_text = refl
