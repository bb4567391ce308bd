-- ===== src/Thunks/Auth/Session.antt =====
-- What the thunks of auth.Slice.tsx leave of the session, for every answer of the board.
use shareframe_board.Common.{
  ◌≡◌, Bool, true, false, Option, ◌∷◌, String, arith, is_some, not, if◌then◌else◌,
}
use shareframe_board.Auth.{check_auth_status, login, logout, change_password, auth_reducer}
use shareframe_board.Async.{pending}
use shareframe_board.Snackbars.{snackbars_reducer}
use shareframe_board.Snackbars.Loading.{has_loading, has_loading-without_loading}
use shareframe_board.Board.{
  Endpoint, Request, Reply, failed, answered, malformed, json, empty_body, change_password_body,
}
use shareframe_board.Store.{Action, root_reducer}
use shareframe_board.Thunk.{Env, World, finished, run, apply, send, delivered, get_from, post_to}
use shareframe_board.Thunk.Waiting.{until_wait}
use shareframe_board.Thunk.Toolkit.{Toolkit}
use shareframe_board.Thunks.Auth.{
  authenticated_in, LoginCredentials, credentials_of, check_status, login_creator, login_attempt,
  login_failed, change_password_creator, change_attempt, change_failed, logout_creator,
  logout_attempt, logout_failed, check_auth_status_thunk, login_thunk, change_password_thunk,
  logout_thunk,
}

-- Whether the board grants what is asked for.
abbrev pub granted : {D : Type 0} → Reply D → Bool
granted (failed e) = false
granted (answered response) = elim response.body [
  | malformed e ↦ false
  | json payload ↦ payload.success
]

abbrev pub login_request : LoginCredentials → Request
login_request credentials = post_to Endpoint.login (credentials_of credentials)

-- A login asks the board once. Then the session is authenticated exactly if the board grants it,
-- whatever it was before; nothing loads any more; an error is set exactly if it does not; the
-- loading notification is gone, and nothing is thrown.
pub login_thunk-granted :
    (toolkit : Toolkit) (env : Env) (online : Bool) (credentials : LoginCredentials) (w : World)
    → let u = run env (login_thunk toolkit online credentials) w in
      let ok = granted (delivered env (login_request credentials) w.waits) in
      (u.0.requests ≡ login_request credentials ∷ w.requests)
      × (u.0.state.auth.is_authenticated ≡ ok)
      × (u.0.state.auth.is_loading ≡ false)
      × (is_some u.0.state.auth.error ≡ not ok)
      × (has_loading (env.fresh_uuid w.uuids) u.0.state.snackbars.loading ≡ false)
      × (u.1 ≡ finished tt)
unfolding login_thunk login_creator login_attempt login_failed run until_wait send apply
    root_reducer auth_reducer snackbars_reducer
login_thunk-granted toolkit env online credentials w =
    rw (toolkit.course env (λ x. Action.auth (login x)) (login_creator online credentials) w) (
      ground (
        arith,
        has_loading-without_loading (env.fresh_uuid w.uuids)
            (send env (login_request credentials) (
              until_wait env (login_creator online credentials)
                (apply (Action.auth (login pending)) w))).state.snackbars.loading,
      ))

-- Whether the board says that the session is authenticated.
abbrev pub authenticated_by : Reply (Option Bool) → Bool
authenticated_by (failed e) = false
authenticated_by (answered response) = elim response.body [
  | malformed e ↦ false
  | json payload ↦ authenticated_in payload
]

-- A check of the session asks once and shows nothing; then the session is authenticated exactly if
-- the board says so, and nothing loads any more.
pub check_auth_status_thunk-authenticated_by :
    (toolkit : Toolkit) (env : Env) (w : World)
    → let request = get_from Endpoint.auth_status in
      let u = run env (check_auth_status_thunk toolkit) w in
      let v = send env request (apply (Action.auth (check_auth_status pending)) w) in
      (u.0.requests ≡ request ∷ w.requests)
      × (u.0.state.auth.is_authenticated ≡ authenticated_by (delivered env request w.waits))
      × (u.0.state.auth.is_loading ≡ false)
      × (u.0.state.snackbars ≡ v.state.snackbars)
      × (u.1 ≡ finished tt)
unfolding check_auth_status_thunk check_status run send apply root_reducer auth_reducer
check_auth_status_thunk-authenticated_by toolkit env w =
    rw (toolkit.course env (λ x. Action.auth (check_auth_status x)) check_status w) (ground arith)

-- Whether there is an answer at all.
abbrev pub is_answered : {D : Type 0} → Reply D → Bool
is_answered (failed e) = false
is_answered (answered response) = true

-- A logout asks once. Any answer of the board, whatever its status, ends the session here; without
-- an answer the session stays what it was after the wait, with an error. In both cases nothing loads
-- any more.
pub logout_thunk-is_answered :
    (toolkit : Toolkit) (env : Env) (online : Bool) (w : World)
    → let request = post_to Endpoint.logout empty_body in
      let u = run env (logout_thunk toolkit online) w in
      let v = send env request (apply (Action.auth (logout pending)) w) in
      let heard = is_answered (delivered env request w.waits) in
      (u.0.requests ≡ request ∷ w.requests)
      × (u.0.state.auth.is_authenticated ≡ (if heard then false else v.state.auth.is_authenticated))
      × (u.0.state.auth.is_loading ≡ false)
      × (is_some u.0.state.auth.error ≡ not heard)
      × (u.1 ≡ finished tt)
unfolding logout_thunk logout_creator logout_attempt logout_failed run send apply root_reducer
    auth_reducer
logout_thunk-is_answered toolkit env online w =
    rw (toolkit.course env (λ x. Action.auth (logout x)) (logout_creator online) w) (ground arith)

-- A change of the password leaves the session as it was after the wait, whatever the board answers,
-- and takes its loading notification away.
pub change_password_thunk-auth :
    (toolkit : Toolkit) (env : Env) (online : Bool) (old new : String) (w : World)
    → let request = post_to Endpoint.change_password (change_password_body old new) in
      let p = change_password_creator online old new in
      let u = run env (change_password_thunk toolkit online old new) w in
      let v =
        send env request (until_wait env p (apply (Action.auth (change_password pending)) w)) in
      (u.0.requests ≡ request ∷ w.requests)
      × (u.0.state.auth ≡ v.state.auth)
      × (has_loading (env.fresh_uuid w.uuids) u.0.state.snackbars.loading ≡ false)
      × (u.1 ≡ finished tt)
unfolding change_password_thunk change_password_creator change_attempt change_failed run until_wait
    send apply root_reducer auth_reducer snackbars_reducer
change_password_thunk-auth toolkit env online old new w =
    rw
      (toolkit.course env (λ x. Action.auth (change_password x))
        (change_password_creator online old new) w)
      (ground (
        arith,
        has_loading-without_loading (env.fresh_uuid w.uuids)
            (send env (post_to Endpoint.change_password (change_password_body old new)) (
              until_wait env (change_password_creator online old new)
                (apply (Action.auth (change_password pending)) w))).state.snackbars.loading,
      ))
