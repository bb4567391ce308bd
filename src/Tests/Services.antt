-- ===== src/Tests/Services.antt =====
-- The thunks for the board's services at concrete inputs.
use shareframe_board.Common.{◌≡◌, false, none, some, [], ◌∷◌}
use shareframe_board.Async.{pending}
use shareframe_board.Services.{restart_service}
use shareframe_board.Snackbars.Loading.{has_loading}
use shareframe_board.Board.{Endpoint, service_body}
use shareframe_board.Store.{Action}
use shareframe_board.Thunk.{run, apply, post_to, finished}
use shareframe_board.Thunk.Waiting.{until_wait}
use shareframe_board.Thunks.Services.{restart_service_creator, restart_service_thunk}
use shareframe_board.Thunks.Services.Restarting.{restart_service_thunk-restarting}
use shareframe_board.Tests.Base.{board, at_rest}
use shareframe_board.Tests.Toolkit.{toolkit}

restart_service_thunk-restarting_example :
    let p = restart_service_creator "display" in
    let begun = apply (Action.services (restart_service "display" pending)) at_rest in
    let u = run (board 20 []) (restart_service_thunk toolkit "display") at_rest in
    ((until_wait (board 20 []) p begun).state.services.restarting ≡ some "display")
    × (u.0.state.services.restarting ≡ none)
    × (u.0.requests ≡ post_to Endpoint.service_restart (service_body "display") ∷ [])
    × (has_loading ((board 20 []).fresh_uuid 0) u.0.state.snackbars.loading ≡ false)
    × (u.1 ≡ finished tt)
restart_service_thunk-restarting_example =
    restart_service_thunk-restarting toolkit (board 20 []) "display" at_rest
