-- ===== src/Tests/Commands.antt =====
-- What the operations on the slideshow send and leave, at concrete inputs.
use shareframe_board.Common.{◌≡◌, refl, true, false, none, some, [], ◌∷◌, ◌++◌, List}
use shareframe_board.Common.Int.{pos}
use shareframe_board.Common.Text.{show}
use shareframe_board.SlideshowOperation.{is_busy}
use shareframe_board.Snackbars.{push_alert}
use shareframe_board.Board.{
  Request, slideshow_status, slideshow, action_body, Response, StatusData, json, error_of, failed,
}
use shareframe_board.Thunk.{
  Env, run, send, delivered, get_from, post_to, finished, call_fetch_slideshow_images,
}
use shareframe_board.Thunk.Waiting.{until_wait}
use shareframe_board.Thunks.Slideshow.Verdict.{verdict, on_verdict}
use shareframe_board.Thunks.Slideshow.Interval.{
  update_display_images_loop_interval, fetch_display_images_loop_interval,
}
use shareframe_board.Thunks.Slideshow.Skip.{skip_image_thunk}
use shareframe_board.Thunks.Slideshow.Show.{show_image_thunk}
use shareframe_board.Thunks.Slideshow.Toggle.{toggle_slideshow_thunk}
use shareframe_board.Thunks.Slideshow.Saved.{
  interval_request, interval_alert, update_interval_verdict, fetch_interval-update_interval,
}
use shareframe_board.Thunks.Slideshow.Commands.{
  skip_request, skip_verdict, timer_restarted, skip_image_thunk-verdict, show_request, show_verdict,
  show_image_thunk-verdict,
}
use shareframe_board.Thunks.Slideshow.Toggled.{toggle_known_request}
use shareframe_board.Tests.Base.{board, at_rest, playing}

update_interval_verdict_example :
    let p = update_display_images_loop_interval (pos 30) in
    let r = interval_request (pos 30) in
    let v = send (board 20 []) r (until_wait (board 20 []) p at_rest) in
    let u = (run (board 20 []) p at_rest).0 in
    let verdict = verdict "Failed to update display interval" (delivered (board 20 []) r 0) in
    (u.requests ≡ r ∷ [])
    × (u.state.slideshow_operation.display_images_interval_mins
        ≡ on_verdict verdict
            (pos 30)
            (λ _. v.state.slideshow_operation.display_images_interval_mins))
    × (u.state.slideshow_operation.error
        ≡ on_verdict verdict v.state.slideshow_operation.error some)
    × (u.state.snackbars.alerts
        ≡ push_alert (interval_alert (show 1) (pos 30) verdict) v.state.snackbars.alerts)
unfolding is_busy
update_interval_verdict_example = update_interval_verdict (board 20 []) at_rest (pos 30) refl

abbrev status_response : Response StatusData
status_response = record {
  status = 200;
  body = json (record { success = true; message = none; content = some playing });
}

fetch_interval-update_interval_example :
    let u = run (board 20 []) fetch_display_images_loop_interval at_rest in
    (u.0.state.slideshow_operation.display_images_interval_mins ≡ pos 30)
    × (u.0.state.slideshow_operation.is_fetching_interval ≡ false)
    × (u.1 ≡ finished tt)
unfolding delivered
fetch_interval-update_interval_example =
    fetch_interval-update_interval (board 20 []) at_rest (pos 30) (pos 1800) status_response
      (record { success = true; message = none; content = some playing }) playing refl refl refl
      refl refl refl refl

skip_image_thunk-verdict_example :
    let v = send (board 20 []) skip_request (until_wait (board 20 []) skip_image_thunk at_rest) in
    let u = (run (board 20 []) skip_image_thunk at_rest).0 in
    let verdict = skip_verdict (delivered (board 20 []) skip_request 0) in
    (u.requests ≡ skip_request ∷ [])
    × (u.state.slideshow_operation.error
        ≡ on_verdict verdict v.state.slideshow_operation.error some)
    × (u.state.timers
        ≡ on_verdict verdict (timer_restarted v.clock v.state.timers) (λ _. v.state.timers))
unfolding is_busy
skip_image_thunk-verdict_example = skip_image_thunk-verdict (board 20 []) at_rest refl

show_image_thunk-verdict_example :
    let p = show_image_thunk (pos 4) in
    let v = send (board 20 []) (show_request (pos 4)) (until_wait (board 20 []) p at_rest) in
    let u = (run (board 20 []) p at_rest).0 in
    let verdict = show_verdict (delivered (board 20 []) (show_request (pos 4)) 0) in
    (u.requests ≡ show_request (pos 4) ∷ [])
    × (u.calls ≡ on_verdict verdict (call_fetch_slideshow_images ∷ []) (λ _. []))
    × (u.state.timers
        ≡ on_verdict verdict (timer_restarted v.clock v.state.timers) (λ _. v.state.timers))
    × on_verdict verdict Unit (λ e. u.state.slideshow_operation.error ≡ some e)
unfolding is_busy
show_image_thunk-verdict_example = show_image_thunk-verdict (board 20 []) at_rest (pos 4) refl

toggle_known_request_example :
    (later : List Request) × ((run (board 20 []) toggle_slideshow_thunk at_rest).0.requests
      ≡ later ++ post_to slideshow (action_body "stop") ∷ get_from slideshow_status ∷ [])
unfolding is_busy delivered
toggle_known_request_example = toggle_known_request (board 20 []) at_rest true refl refl

-- A board that is out of reach.
abbrev unreachable : Env
unreachable = record (board 20 []) { reply = λ n r. failed (error_of "Failed to fetch") }
