-- ===== src/Thunks/Notified.antt =====
-- The finally blocks of the thunks in dashboard-frontend/frontend/src/store: each takes the loading
-- notification away that its thunk began with.
use shareframe_board.Common.{◌≡◌, suc, false, String}
use shareframe_board.Snackbars.{remove_loading_snackbar, snackbars_reducer}
use shareframe_board.Snackbars.Loading.{has_loading, has_loading-without_loading}
use shareframe_board.Store.{root_reducer}
use shareframe_board.Thunk.{
  Prog, Env, World, Ending, finished, threw, uuid, ◌>>=◌, finally, run, apply,
}
use shareframe_board.Thunk.Laws.{run-finally, conclude}
use shareframe_board.Thunks.Slideshow.Common.{snackbar}

abbrev last : String → Prog (Unit {0})
last id = snackbar (remove_loading_snackbar id)

conclude-has_loading :
    (env : Env) {A : Type 0} (id : String) (r : World × Ending A)
    → has_loading id (conclude env (last id) r).0.state.snackbars.loading ≡ false
unfolding run apply root_reducer snackbars_reducer
conclude-has_loading env id (v, finished a) =
    has_loading-without_loading id v.state.snackbars.loading
conclude-has_loading env id (v, threw e) = has_loading-without_loading id v.state.snackbars.loading

finally-has_loading :
    (env : Env) {A : Type 0} (p : Prog A) (id : String) (w : World)
    → has_loading id (run env (finally p (last id)) w).0.state.snackbars.loading ≡ false
finally-has_loading env p id w =
    rw (run-finally env p (last id) w) (conclude-has_loading env id (run env p w))

pub named-has_loading :
    (env : Env) {A : Type 0} (p : String → Prog A) (w : World)
    → has_loading
        (env.fresh_uuid w.uuids)
        (run env (uuid >>= λ id. finally (p id) (last id)) w).0.state.snackbars.loading
      ≡ false
unfolding run
named-has_loading env p w =
    let id = env.fresh_uuid w.uuids in
    finally-has_loading env (p id) id (record w { uuids = suc w.uuids })
