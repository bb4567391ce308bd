-- ===== src/Thunks/Slideshow/Toggled.antt =====
-- What `toggleSlideshowThunk` of slideshowOperation.Slice.tsx sends, and how it ends when the board's
-- state is not known.
use shareframe_board.Common.{
  suc, ap, ◌∙◌, not, ◌≡◌, Bool, true, false, Option, none, some, List, ◌∷◌, ◌++◌, String, arith,
  if◌then◌else◌,
}
use shareframe_board.SlideshowOperation.{is_busy, set_toggle_status, slideshow_operation_reducer}
use shareframe_board.Snackbars.{add_loading_snackbar, snackbars_reducer}
use shareframe_board.Snackbars.Loading.{has_loading-without_loading}
use shareframe_board.Board.{
  Request, Reply, failed, answered, malformed, json, StatusData, slideshow, slideshow_status,
  action_body,
}
use shareframe_board.Store.{Action, root_reducer}
use shareframe_board.Thunk.{
  elapse, Env, World, run, apply, send, delivered, get_from, post_to, try_catch, ret, raise, ◌>>=◌,
  ◌>>◌, when, throw_error, data_of, read_json,
}
use shareframe_board.Thunk.Requests.{requests-run_fetching}
use shareframe_board.Thunk.Waiting.{until_wait}
use shareframe_board.Thunks.Slideshow.Guard.{drawn, unless_state_free}
use shareframe_board.Thunks.Slideshow.Ends.{IsOver}
use shareframe_board.Thunks.Slideshow.Toggle.{
  action_of, toggle_command, toggle_attempt, toggle_failed, toggle_slideshow_thunk,
}

-- Whether the slideshow is active, as far as a reply tells.
abbrev pub active_in : Reply StatusData → Option Bool
active_in (failed e) = none
active_in (answered response) = elim response.body [
  | malformed e ↦ none
  | json payload ↦
      if payload.success
      then elim payload.content [ none ↦ none | some d ↦ some d.active ]
      else none
]

-- If the board's answer does not tell whether the slideshow is active, a toggle asks for nothing
-- more, and is over.
pub toggle_unknown-IsOver :
    (env : Env) (w : World)
    → is_busy w.state.slideshow_operation ≡ false
    → active_in (delivered env (get_from slideshow_status) w.waits) ≡ none
    → let u = run env toggle_slideshow_thunk w in
      (u.0.requests ≡ get_from slideshow_status ∷ w.requests)
      × IsOver (λ s. s.is_toggling) (env.fresh_uuid w.uuids) u
unfolding toggle_slideshow_thunk toggle_attempt toggle_failed until_wait run send apply root_reducer
    slideshow_operation_reducer snackbars_reducer
toggle_unknown-IsOver env w free unknown = ground (
  arith,
  has_loading-without_loading (env.fresh_uuid w.uuids)
      (send env (get_from slideshow_status)
        (until_wait env toggle_slideshow_thunk w)).state.snackbars.loading,
)

toggle_command_request :
    (env : Env) (id : String) (active : Bool) (w : World)
    → (later : List Request) × ((run env
          (try_catch (toggle_command id active) (toggle_failed id))
          w).0.requests
        ≡ later ++ post_to slideshow (action_body (action_of active)) ∷ w.requests)
unfolding toggle_command
toggle_command_request env id active w =
    requests-run_fetching env (post_to slideshow (action_body (action_of active))) _ w

reply_known :
    (id : String) (active : Bool) (reply : Reply StatusData)
    → active_in reply ≡ some active
    → (elim reply [ failed e ↦ raise e | answered response ↦ ret response ] >>= λ response.
        read_json response >>= λ payload.
        when (not payload.success) (throw_error "Status der Diashow konnte nicht geladen werden")
        >> (data_of "active" payload >>= λ status. toggle_command id status.active))
      ≡ toggle_command id active
reply_known id active reply known = ground arith

-- The world in which a toggle meets the answer to its first request.
status_asked : Env → World → World
status_asked env w = send env (get_from slideshow_status) (
    apply
      (Action.snackbars (add_loading_snackbar (env.fresh_uuid w.uuids) "Diashow wird umgeschaltet"))
      (apply (Action.slideshow_operation (set_toggle_status true)) (drawn w)))

toggle_free :
    (env : Env) (w : World)
    → is_busy w.state.slideshow_operation ≡ false
    → let id = env.fresh_uuid w.uuids in
      run env toggle_slideshow_thunk w
      ≡ run env
          (try_catch (toggle_attempt id) (toggle_failed id))
          (record w { uuids = suc w.uuids })
unfolding toggle_slideshow_thunk
toggle_free env w free = rw (unless_state_free env is_busy _ w free)

toggle_known :
    (env : Env) (w : World) (active : Bool)
    → is_busy w.state.slideshow_operation ≡ false
    → active_in (delivered env (get_from slideshow_status) w.waits) ≡ some active
    → let id = env.fresh_uuid w.uuids in
      run env toggle_slideshow_thunk w
      ≡ run env (try_catch (toggle_command id active) (toggle_failed id)) (status_asked env w)
unfolding toggle_attempt run status_asked delivered apply
toggle_known env w active free known =
    let id = env.fresh_uuid w.uuids in
    toggle_free env w free
    ∙ ap (λ p. run env (try_catch p (toggle_failed id)) (status_asked env w))
        (reply_known id active _ known)

-- If the board's answer tells whether the slideshow is active, a toggle that its guard lets through
-- asks the board next to stop an active slideshow, and to start another.
pub toggle_known_request :
    (env : Env) (w : World) (active : Bool)
    → is_busy w.state.slideshow_operation ≡ false
    → active_in (delivered env (get_from slideshow_status) w.waits) ≡ some active
    → (later : List Request) × ((run env toggle_slideshow_thunk w).0.requests
        ≡ later
          ++ post_to slideshow (action_body (if active then "stop" else "start"))
            ∷ get_from slideshow_status
            ∷ w.requests)
unfolding status_asked send elapse apply action_of
toggle_known_request env w active free known =
    let next = toggle_command_request env (env.fresh_uuid w.uuids) active (status_asked env w) in
    (next.0, ap (λ u. u.0.requests) (toggle_known env w active free known) ∙ next.1)
