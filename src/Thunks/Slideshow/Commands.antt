-- ===== src/Thunks/Slideshow/Commands.antt =====
-- What the commands to skip, to clear and to show of slideshowOperation.Slice.tsx send and report.
use shareframe_board.Common.{
  ℕ, ◌≡◌, false, Option, none, some, ◌∷◌, String, ◌==◌, arith, if◌then◌else◌,
}
use shareframe_board.Common.Int.{ℤ}
use shareframe_board.SlideshowOperation.{is_busy, slideshow_operation_reducer}
use shareframe_board.Timers.{TimerState, timers_reducer, reset_timer, start_timer}
use shareframe_board.Board.{
  Request, Reply, failed, answered, malformed, json, skip_slideshow_image, show_slideshow_image,
  empty_body, image_body,
}
use shareframe_board.Store.{root_reducer}
use shareframe_board.Thunk.{
  Env, World, ◌>>◌, run, apply, send, delivered, begin, post_to, message_of,
  call_fetch_slideshow_images,
}
use shareframe_board.Thunk.Slices.{timers_after, reduce_all-timers}
use shareframe_board.Thunk.Waiting.{until_wait}
use shareframe_board.Thunks.Slideshow.Common.{actions_timer, alert, restart_actions_timer}
use shareframe_board.Snackbars.{success}
use shareframe_board.Thunks.Slideshow.Verdict.{on_verdict}
use shareframe_board.Thunks.Slideshow.Skip.{
  skip_while_refreshing, skip_attempt, skip_end, skip_failed, skip_image_thunk,
}
use shareframe_board.Thunks.Slideshow.Show.{
  conflict_message, show_attempt, show_failed, show_last, show_image_thunk,
}

-- The timer of the actions set back and started, at a time.
abbrev pub timer_restarted : ℕ → TimerState → TimerState
timer_restarted now t =
    timers_reducer now (timers_reducer now t (reset_timer actions_timer))
      (start_timer actions_timer)

-- `none` if the board skips the picture, and otherwise why not: 409 is a display that is busy.
abbrev pub skip_verdict : {D : Type 0} → Reply D → Option String
skip_verdict (failed e) = some (message_of "Unbekannter Fehler" e)
skip_verdict (answered response) =
    if response.status == 409 then some skip_while_refreshing else elim response.body [
      | malformed e ↦ some (message_of "Unbekannter Fehler" e)
      | json payload ↦
          if payload.success then none else some "Foto konnte nicht übersprungen werden"
    ]

abbrev pub skip_request : Request
skip_request = post_to skip_slideshow_image empty_body

-- A skip that its guard lets through asks the board once. If the board skips, the timer of the
-- actions starts anew and the error stays; otherwise the timers stay and the error says why.
pub skip_image_thunk-verdict :
    (env : Env) (w : World)
    → is_busy w.state.slideshow_operation ≡ false
    → let v = send env skip_request (until_wait env skip_image_thunk w) in
      let u = (run env skip_image_thunk w).0 in
      let verdict = skip_verdict (delivered env skip_request w.waits) in
      (u.requests ≡ skip_request ∷ w.requests)
      × (u.state.slideshow_operation.error
          ≡ on_verdict verdict v.state.slideshow_operation.error some)
      × (u.state.timers
          ≡ on_verdict verdict (timer_restarted v.clock v.state.timers) (λ _. v.state.timers))
unfolding skip_image_thunk skip_attempt skip_end skip_failed run until_wait send apply root_reducer
    slideshow_operation_reducer
skip_image_thunk-verdict env w free = ground arith

-- `none` if the board shows the picture, and otherwise why not. The body is read before the status.
abbrev pub show_verdict : {D : Type 0} → Reply D → Option String
show_verdict (failed e) = some (message_of "Unbekannter Fehler" e)
show_verdict (answered response) = elim response.body [
  | malformed e ↦ some (message_of "Unbekannter Fehler" e)
  | json payload ↦
      if response.status == 409
      then some (conflict_message payload.message)
      else if payload.success
      then none
      else some "Foto konnte nicht angezeigt werden"
]

abbrev pub show_request : ℤ → Request
show_request id = post_to show_slideshow_image (image_body id)

-- A request to show a picture that its guard lets through is sent once, with the picture's id. If
-- the board shows it, the timer of the actions starts anew, before whatever that the fetch does at
-- once, and the pictures are fetched again; otherwise the timers stay, nothing is fetched, and the
-- error says why.
pub show_image_thunk-verdict :
    (env : Env) (w : World) (id : ℤ)
    → is_busy w.state.slideshow_operation ≡ false
    → let v = send env (show_request id) (until_wait env (show_image_thunk id) w) in
      let u = (run env (show_image_thunk id) w).0 in
      let verdict = show_verdict (delivered env (show_request id) w.waits) in
      (u.requests ≡ show_request id ∷ w.requests)
      × (u.calls ≡ on_verdict verdict (call_fetch_slideshow_images ∷ w.calls) (λ _. w.calls))
      × (u.state.timers
          ≡ on_verdict verdict
              (timers_after v.clock
                (timer_restarted v.clock v.state.timers)
                (env.on_start call_fetch_slideshow_images))
              (λ _. v.state.timers))
      × on_verdict verdict Unit (λ e. u.state.slideshow_operation.error ≡ some e)
unfolding show_image_thunk show_attempt show_last show_failed run until_wait send begin apply
    root_reducer slideshow_operation_reducer
show_image_thunk-verdict env w id free =
    let v = send env (show_request id) (until_wait env (show_image_thunk id) w) in
    let told =
      (run env (alert "Foto wird auf dem Bilderrahmen angezeigt" success >> restart_actions_timer)
        v).0 in
    (
      ground arith,
      ground arith,
      ground (
        arith,
        reduce_all-timers told.clock told.state (env.on_start call_fetch_slideshow_images),
      ),
      ground arith,
    )
