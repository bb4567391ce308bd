-- ===== src/Thunks/Slideshow/Saved.antt =====
-- What saving and loading the interval of slideshowOperation.Slice.tsx leave in the state.
use shareframe_board.Common.{suc, ◌≡◌, true, false, Option, none, some, ◌∷◌, String, arith}
use shareframe_board.Common.Int.{ℤ, pos, negsuc, scale}
use shareframe_board.Common.Text.{◌<>◌, show_ℤ}
use shareframe_board.SlideshowOperation.{is_busy, slideshow_operation_reducer}
use shareframe_board.Snackbars.{AlertSnackbarItem, success, error, push_alert, snackbars_reducer}
use shareframe_board.Board.{
  Request, answered, json, ServerResponse, Response, StatusData, slideshow_interval,
  slideshow_status, interval_body,
}
use shareframe_board.Store.{root_reducer}
use shareframe_board.Thunk.{Env, World, run, apply, send, delivered, post_to, get_from, finished}
use shareframe_board.Thunk.Waiting.{until_wait}
use shareframe_board.Thunks.Slideshow.Common.{round_minutes}
use shareframe_board.Thunks.Slideshow.Verdict.{verdict, on_verdict}
use shareframe_board.Thunks.Slideshow.Interval.{
  interval_of, keep_interval, load_interval, fetch_display_images_loop_interval, interval_attempt,
  interval_saved, interval_end, interval_failed, update_display_images_loop_interval,
}

-- Minutes sent as seconds and rounded back are the same minutes.
round_minutes-scale : (m : ℤ) → round_minutes (scale m 60) ≡ m
unfolding round_minutes
round_minutes-scale (pos n) = ground arith
round_minutes-scale (negsuc n) = ground arith

abbrev pub interval_request : ℤ → Request
interval_request m = post_to slideshow_interval (interval_body (scale m 60))

-- The alert that the user sees at the end of an update of the interval.
abbrev pub interval_alert : String → ℤ → Option String → AlertSnackbarItem
interval_alert id m none = record {
  item = record {
    id = id;
    message = "Intervall auf " <> show_ℤ m <> " Minuten gesetzt";
    auto_hide_duration = none;
  };
  severity = success;
}
interval_alert id m (some _) = record {
  item = record {
    id = id;
    message = "Intervall konnte nicht gespeichert werden";
    auto_hide_duration = none;
  };
  severity = error;
}

-- An update of the interval that its guard lets through sends the minutes as seconds, once. If the
-- board accepts, the new interval is kept and the error stays what it was; otherwise the interval
-- stays what it was and the error says why. The alert tells the two apart. Here "was" is after the
-- wait for the answer.
pub update_interval_verdict :
    (env : Env) (w : World) (m : ℤ)
    → is_busy w.state.slideshow_operation ≡ false
    → let r = interval_request m in
      let v = send env r (until_wait env (update_display_images_loop_interval m) w) in
      let u = (run env (update_display_images_loop_interval m) w).0 in
      let verdict = verdict "Failed to update display interval" (delivered env r w.waits) in
      (u.requests ≡ r ∷ w.requests)
      × (u.state.slideshow_operation.display_images_interval_mins
          ≡ on_verdict verdict m (λ _. v.state.slideshow_operation.display_images_interval_mins))
      × (u.state.slideshow_operation.error
          ≡ on_verdict verdict v.state.slideshow_operation.error some)
      × (u.state.snackbars.alerts
          ≡ push_alert
              (interval_alert (env.fresh_uuid (suc w.uuids)) m verdict)
              v.state.snackbars.alerts)
unfolding update_display_images_loop_interval interval_attempt interval_saved interval_end
    interval_failed run until_wait send apply root_reducer slideshow_operation_reducer
    snackbars_reducer
update_interval_verdict env w m free = ground arith

-- What an update posts, a later fetch reads back: if the board's status carries the seconds that an
-- update to `m` minutes posts, then the fetched interval is `m`, the flag of the fetch is down and
-- nothing is thrown.
pub fetch_interval-update_interval :
    (env : Env) (w : World) (m seconds : ℤ) (response : Response StatusData)
    (payload : ServerResponse StatusData) (d : StatusData)
    → w.state.slideshow_operation.is_fetching_interval ≡ false
    → delivered env (get_from slideshow_status) w.waits ≡ answered response
    → response.body ≡ json payload
    → payload.success ≡ true
    → payload.content ≡ some d
    → d.interval_seconds ≡ some seconds
    → (interval_request m).content ≡ interval_body seconds
    → let u = run env fetch_display_images_loop_interval w in
      (u.0.state.slideshow_operation.display_images_interval_mins ≡ m)
      × (u.0.state.slideshow_operation.is_fetching_interval ≡ false)
      × (u.1 ≡ finished tt)
unfolding fetch_display_images_loop_interval load_interval keep_interval interval_of run send apply
    root_reducer slideshow_operation_reducer
fetch_interval-update_interval env w m seconds response payload d idle reply body ok content secs
      sent =
    ground (arith, round_minutes-scale m)
