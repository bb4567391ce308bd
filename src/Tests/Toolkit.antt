-- ===== src/Tests/Toolkit.antt =====
-- A toolkit for the tests, and the asynchronous thunks at concrete inputs.
use shareframe_board.Common.{
  ◌+◌, ◌≡◌, refl, ap, ◌∙◌, true, false, not, none, some, [], ◌∷◌, str_eq, is_some,
}
use shareframe_board.Async.{Stage, pending, Settled}
use shareframe_board.Snackbars.Loading.{has_loading}
use shareframe_board.Board.{Endpoint, Thrown}
use shareframe_board.BoardErrors.{board_error_message}
use shareframe_board.BoardErrors.Laws.{board_error_message-is_empty}
use shareframe_board.Store.{Action}
use shareframe_board.Thunk.{
  Prog, ret, ◌>>=◌, ◌>>◌, try_catch, dispatch, Env, World, Ending, finished, threw, run, apply,
  send, delivered,
}
use shareframe_board.Thunk.Laws.{run-bind, run-try_catch, continue, recover}
use shareframe_board.Thunk.Toolkit.{Toolkit, last_stage, concluded}
use shareframe_board.Thunks.Auth.{otp, login_thunk}
use shareframe_board.Thunks.Auth.Session.{granted, login_request, login_thunk-granted}
use shareframe_board.Thunks.Power.{
  up, down, power_request, poll_health, poll_loop, poll_rounds, restart_pi,
}
use shareframe_board.Thunks.Power.Polling.{PollEnd, poll_health_lem, poll_health_rounds}
use shareframe_board.Thunks.Power.Reload.{
  power_answer, restart_asked, RestartLeaves, restart_pi-power_answer,
}
use shareframe_board.Tests.Base.{board, at_rest}

abbrev pub stage_of : {A : Type 0} → Settled A → Stage A
stage_of s = last_stage none (finished s)

abbrev pub caught : {A : Type 0} → Thrown → Prog (Stage A)
caught e = ret (last_stage none (threw e))

abbrev pub create : {A : Type 0} → (Stage A → Action) → Prog (Settled A) → Prog (Unit {0})
create stage creator =
    dispatch (stage pending)
    >> (try_catch (creator >>= λ s. ret (stage_of s)) caught >>= λ last. dispatch (stage last))

ended :
    (env : Env) {A : Type 0} (stage : Stage A → Action) (r : World × Ending (Settled A))
    → continue env
        (λ last. dispatch (stage last))
        (recover env caught (continue env (λ s. ret (stage_of s)) r))
      ≡ concluded stage none r
unfolding run
ended env stage (w, finished s) = refl
ended env stage (w, threw e) = refl

pub create_course :
    (env : Env) {A : Type 0} (stage : Stage A → Action) (creator : Prog (Settled A)) (w : World)
    → run env (create stage creator) w
      ≡ concluded stage none (run env creator (apply (stage pending) w))
unfolding run
create_course env stage creator w =
    let w' = apply (stage pending) w in
    let body = creator >>= λ s. ret (stage_of s) in
    run-bind env (try_catch body caught) (λ last. dispatch (stage last)) w'
    ∙ ap (continue env (λ last. dispatch (stage last))) (
        run-try_catch env body caught w'
        ∙ ap (recover env caught) (run-bind env creator (λ s. ret (stage_of s)) w'))
    ∙ ended env stage (run env creator w')

abbrev pub toolkit : Toolkit
toolkit = record {
  create_async_thunk = λ stage creator. create stage creator;
  other_text = none;
  course = λ env stage creator w. create_course env stage creator w;
}

board_error_message-is_empty_example :
    str_eq (board_error_message "Anmeldung fehlgeschlagen" (some 403) (some "")) "" ≡ true
unfolding board_error_message
board_error_message-is_empty_example =
    board_error_message-is_empty "Anmeldung fehlgeschlagen" 403 (some "") refl

login_thunk-granted_example :
    let u = run (board 20 []) (login_thunk toolkit true (otp "1234")) at_rest in
    let ok = granted (delivered (board 20 []) (login_request (otp "1234")) 0) in
    (u.0.requests ≡ login_request (otp "1234") ∷ [])
    × (u.0.state.auth.is_authenticated ≡ ok)
    × (u.0.state.auth.is_loading ≡ false)
    × (is_some u.0.state.auth.error ≡ not ok)
    × (has_loading ((board 20 []).fresh_uuid 0) u.0.state.snackbars.loading ≡ false)
    × (u.1 ≡ finished tt)
login_thunk-granted_example = login_thunk-granted toolkit (board 20 []) true (otp "1234") at_rest

poll_health_lem_example :
    PollEnd (board 20 []) down 60000 1 1000 (run (board 20 []) (poll_health down 60000 1) at_rest)
poll_health_lem_example = poll_health_lem (board 20 []) down 60000 1 at_rest

poll_health_rounds_example :
    run (board 20 []) (poll_loop (poll_rounds 9000 + 5) up 9000 1 1000 0) at_rest
    ≡ run (board 20 []) (poll_health up 9000 1) at_rest
poll_health_rounds_example = poll_health_rounds (board 20 []) up 9000 1 5 at_rest

restart_pi-power_answer_example :
    let r = power_request Endpoint.restart_pi in
    let v =
      send
        (board 20 [])
        r
        (restart_asked (board 20 []) (apply (Action.pi_power pending) at_rest)) in
    RestartLeaves
      (board 20 [])
      at_rest
      v
      (power_answer (delivered (board 20 []) r 0))
      (run (board 20 []) (restart_pi toolkit) at_rest).0
restart_pi-power_answer_example = restart_pi-power_answer toolkit (board 20 []) at_rest
