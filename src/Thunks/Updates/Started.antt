-- ===== src/Thunks/Updates/Started.antt =====
-- What the start of an update does in updates.Slice.tsx, for every answer of the board.
use shareframe_board.Common.{◌≡◌, refl, ◌+◌, ◌*◌, Bool, true, false, some, ◌∷◌, arith}
use shareframe_board.Async.{pending}
use shareframe_board.Updates.{perform_update}
use shareframe_board.LoadingWall.{loading_wall_reducer}
use shareframe_board.Snackbars.Loading.{has_loading}
use shareframe_board.Board.{Endpoint, empty_body}
use shareframe_board.Store.{Action, root_reducer}
use shareframe_board.Thunk.{Env, World, finished, run, apply, send, delivered, post_to, try_catch}
use shareframe_board.Thunk.Waiting.{until_wait}
use shareframe_board.Thunk.Toolkit.{Toolkit}
use shareframe_board.Thunks.Auth.Session.{granted}
use shareframe_board.Thunks.Notified.{named-has_loading}
use shareframe_board.Thunks.Updates.{
  update_wall, update_attempt, update_failed, perform_update_creator, perform_update_thunk,
}

-- The wall and the paths that were gone to, by whether the board starts the update.
abbrev pub IsWalled : Bool → World → World → Type 0
IsWalled true v u =
    (u.state.loading_wall.is_loading_wall_visible ≡ true)
    × (u.state.loading_wall.message ≡ update_wall)
    × (u.state.loading_wall.hide_after ≡ some (v.clock + 3 * 60 * 1000))
    × (u.paths ≡ "/" ∷ v.paths)
IsWalled false v u = (u.state.loading_wall ≡ v.state.loading_wall) × (u.paths ≡ v.paths)

-- The board is asked once. If it starts the update, the dashboard goes to its first page behind a
-- loading wall of three minutes at most; if not, it stays where it is. The notification is taken away
-- either way, and nothing is thrown.
pub perform_update_thunk-granted :
    (toolkit : Toolkit) (env : Env) (w : World)
    → let r = post_to Endpoint.perform_update empty_body in
      let v = send env r (
        until_wait env perform_update_creator
          (apply (Action.updates (perform_update pending)) w)) in
      let u = run env (perform_update_thunk toolkit) w in
      (u.0.requests ≡ r ∷ w.requests)
      × IsWalled (granted (delivered env r w.waits)) v u.0
      × (has_loading (env.fresh_uuid w.uuids) u.0.state.snackbars.loading ≡ false)
      × (u.1 ≡ finished tt)
unfolding perform_update_thunk perform_update_creator update_attempt update_failed until_wait run
    apply send root_reducer loading_wall_reducer
perform_update_thunk-granted toolkit env w =
    rw (toolkit.course env (λ x. Action.updates (perform_update x)) perform_update_creator w) (
      ground arith,
      ground arith,
      named-has_loading env (λ id. try_catch (update_attempt id) update_failed)
          (apply (Action.updates (perform_update pending)) w),
      refl,
    )
