-- ===== src/Thunks/Services/Restarting.antt =====
-- What a restart of a service and a fetch of the services leave, for every answer of the board.
use shareframe_board.Common.{
  ◌≡◌, true, false, Option, none, some, List, ◌∷◌, String, is_some, arith,
}
use shareframe_board.Async.{pending}
use shareframe_board.Services.{
  ServiceStatus, ServicesState, fetch_services, restart_service, services_reducer,
}
use shareframe_board.Snackbars.{snackbars_reducer}
use shareframe_board.Snackbars.Loading.{has_loading, has_loading-without_loading}
use shareframe_board.Board.{Endpoint, Reply, failed, answered, malformed, json, service_body}
use shareframe_board.Store.{Action, root_reducer}
use shareframe_board.Thunk.{Env, World, finished, run, apply, send, delivered, get_from, post_to}
use shareframe_board.Thunk.Waiting.{until_wait}
use shareframe_board.Thunk.Toolkit.{Toolkit}
use shareframe_board.Thunks.Services.{
  services_in, services_attempt, fetch_services_creator, restart_service_attempt,
  restart_service_failed, restart_service_creator, fetch_services_thunk, restart_service_thunk,
}

-- While a restart waits for the board it is marked as the one under way; in the end no restart is,
-- its notification is gone and nothing is thrown, whatever the board answers. It asks once.
pub restart_service_thunk-restarting :
    (toolkit : Toolkit) (env : Env) (id : String) (w : World)
    → let p = restart_service_creator id in
      let v = until_wait env p (apply (Action.services (restart_service id pending)) w) in
      let u = run env (restart_service_thunk toolkit id) w in
      (v.state.services.restarting ≡ some id)
      × (u.0.state.services.restarting ≡ none)
      × (u.0.requests ≡ post_to Endpoint.service_restart (service_body id) ∷ w.requests)
      × (has_loading (env.fresh_uuid w.uuids) u.0.state.snackbars.loading ≡ false)
      × (u.1 ≡ finished tt)
unfolding restart_service_thunk restart_service_creator restart_service_attempt
    restart_service_failed until_wait run apply send root_reducer services_reducer snackbars_reducer
restart_service_thunk-restarting toolkit env id w =
    let v = send env (post_to Endpoint.service_restart (service_body id)) (
      until_wait env (restart_service_creator id)
        (apply (Action.services (restart_service id pending)) w)) in
    rw
      (toolkit.course env (λ x. Action.services (restart_service id x)) (restart_service_creator id)
        w)
      (ground
        (arith, has_loading-without_loading (env.fresh_uuid w.uuids) v.state.snackbars.loading))

-- The services that a reply grants.
abbrev pub services_of : Reply (Option (List ServiceStatus)) → Option (List ServiceStatus)
services_of (failed e) = none
services_of (answered response) = elim response.body [
  | malformed e ↦ none
  | json payload ↦ elim payload.success [ false ↦ none | true ↦ some (services_in payload) ]
]

-- The services after a fetch, by what was granted and what was there.
abbrev pub AreListed : ServicesState → Option (List ServiceStatus) → ServicesState → Type 0
AreListed old none s = (s.services ≡ old.services) × (is_some s.error ≡ true)
AreListed old (some services) s = (s.services ≡ services) × (s.error ≡ old.error)

-- A fetch of the services lists those of the board's answer, none if it names none, or leaves the
-- old ones with an error; nothing loads any more.
pub fetch_services_thunk-services_of :
    (toolkit : Toolkit) (env : Env) (w : World)
    → let r = get_from Endpoint.services in
      let v = send env r (apply (Action.services (fetch_services pending)) w) in
      let u = run env (fetch_services_thunk toolkit) w in
      (u.0.requests ≡ r ∷ w.requests)
      × (u.0.state.services.loading ≡ false)
      × AreListed v.state.services (services_of (delivered env r w.waits)) u.0.state.services
      × (u.1 ≡ finished tt)
unfolding fetch_services_thunk fetch_services_creator services_attempt run apply send root_reducer
    services_reducer
fetch_services_thunk-services_of toolkit env w =
    rw (toolkit.course env (λ x. Action.services (fetch_services x)) fetch_services_creator w)
      (ground arith)
