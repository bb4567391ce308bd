-- ===== src/Main/UpdatesPage/Searched.antt =====
-- The search for updates of updates.tsx.
use shareframe_board.Common.{◌≡◌, refl, false, suc, ◌∷◌, arith}
use shareframe_board.Board.{Endpoint}
use shareframe_board.Snackbars.{add_loading_snackbar, remove_loading_snackbar, snackbars_reducer}
use shareframe_board.Snackbars.Loading.{has_loading, has_loading-without_loading}
use shareframe_board.Store.{Action, root_reducer}
use shareframe_board.Thunk.{Env, World, finished, run, apply, send, get_from}
use shareframe_board.Thunk.Laws.{run-bind}
use shareframe_board.Thunk.Toolkit.{Toolkit}
use shareframe_board.Thunks.Slideshow.Common.{snackbar}
use shareframe_board.Thunks.Updates.{
  fetch_latest_release_thunk, fetch_release_creator, release_attempt, release_failed,
}
use shareframe_board.Updates.{fetch_latest_release, updates_reducer}
use shareframe_board.Main.UpdatesPage.{handle_fetch_latest_release}

-- A search for updates asks the board once. Whatever the board answers, and whatever happens
-- meanwhile, nothing loads any more in the end, the notification is gone, and nothing is thrown.
pub handle_fetch_latest_release-has_loading :
    (toolkit : Toolkit) (env : Env) (w : World)
    → let u = run env (handle_fetch_latest_release toolkit) w in
      (u.0.requests ≡ get_from Endpoint.latest_release ∷ w.requests)
      × (u.0.state.updates.loading ≡ false)
      × (has_loading (env.fresh_uuid w.uuids) u.0.state.snackbars.loading ≡ false)
      × (u.1 ≡ finished tt)
unfolding handle_fetch_latest_release fetch_latest_release_thunk fetch_release_creator
    release_attempt release_failed run send apply root_reducer snackbars_reducer updates_reducer
handle_fetch_latest_release-has_loading toolkit env w =
    let id = env.fresh_uuid w.uuids in
    let begun =
      apply (Action.snackbars (add_loading_snackbar id "Suche nach Updates"))
        (record w { uuids = suc w.uuids }) in
    rw
      (
        run-bind env (fetch_latest_release_thunk toolkit)
            (λ _. snackbar (remove_loading_snackbar id)) begun,
        toolkit.course env (λ x. Action.updates (fetch_latest_release x)) fetch_release_creator
            begun,
      )
      (ground arith, ground arith, has_loading-without_loading id _, refl)
