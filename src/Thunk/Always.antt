-- ===== src/Thunk/Always.antt =====
-- What every action keeps, every program keeps, whatever the board answers and whatever the rest of
-- the dashboard dispatches meanwhile.
use shareframe_board.Common.{ℕ, List, [], ◌∷◌}
use shareframe_board.Store.{RootState, Action, root_reducer}
use shareframe_board.Store.Invariant.{IsCoherent, root_reducer-IsCoherent}
use shareframe_board.Thunk.{
  Prog, ret, raise, dispatching, fetching, reading, naming, timing, sleeping, starting, navigating,
  reloading, Env, World, reduce_all, apply, elapse, send, begin, run,
}

module _ (P : RootState → Type 0)
    (keep : (now : ℕ) (s : RootState) (a : Action) → P s → P (root_reducer now s a)) where
  pub reduce_all-keep : (now : ℕ) (s : RootState) (xs : List Action) → P s → P (reduce_all now s xs)
  unfolding reduce_all
  reduce_all-keep now s [] h = h
  reduce_all-keep now s (a ∷ rest) h =
      reduce_all-keep now (root_reducer now s a) rest (keep now s a h)

  pub run-keep :
      (env : Env) {A : Type 0} (p : Prog A) (w : World) → P w.state → P (run env p w).0.state
  unfolding run apply elapse send begin
  run-keep env (ret x) w h = h
  run-keep env (raise e) w h = h
  run-keep env (dispatching a p) w h = run-keep env p _ (keep w.clock w.state a h)
  run-keep env (fetching r k) w h = run-keep env (k _) _ (reduce_all-keep _ w.state _ h)
  run-keep env (reading k) w h = run-keep env (k _) w h
  run-keep env (naming k) w h = run-keep env (k _) _ h
  run-keep env (timing k) w h = run-keep env (k _) w h
  run-keep env (sleeping n p) w h = run-keep env p _ (reduce_all-keep _ w.state _ h)
  run-keep env (starting c p) w h = run-keep env p _ (reduce_all-keep _ w.state _ h)
  run-keep env (navigating u p) w h = run-keep env p _ h
  run-keep env (reloading p) w h = run-keep env p _ h

-- Whatever thunk runs, whatever the board answers and whatever is dispatched meanwhile: if the state
-- has at most five alerts, distinct timers, both or neither of the accounts of the last failure and
-- no name in a closed dialog, then so has the state at the end.
pub run-IsCoherent :
    (env : Env) {A : Type 0} (p : Prog A) (w : World)
    → IsCoherent w.state
    → IsCoherent (run env p w).0.state
run-IsCoherent env p w h = run-keep IsCoherent root_reducer-IsCoherent env p w h
