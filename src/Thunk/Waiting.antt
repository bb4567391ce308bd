-- ===== src/Thunk/Waiting.antt =====
-- The world at the first wait of a program, and what is left of the program there: the rest of the
-- dashboard gets its turn now. A program that does not wait is at its end.
use shareframe_board.Common.{suc, ◌∷◌}
use shareframe_board.Thunk.{
  Prog, ret, raise, dispatching, fetching, reading, naming, timing, sleeping, starting, navigating,
  reloading, Env, World, apply, begin,
}

module _ (env : Env) where
  unfoldable pub until_wait : {A : Type 0} → Prog A → World → World
  until_wait (ret a) w = w
  until_wait (raise e) w = w
  until_wait (dispatching a p) w = until_wait p (apply a w)
  until_wait (fetching r k) w = w
  until_wait (reading k) w = until_wait (k w.state) w
  until_wait (naming k) w =
      until_wait (k (env.fresh_uuid w.uuids)) (record w { uuids = suc w.uuids })
  until_wait (timing k) w = until_wait (k w.clock) w
  until_wait (sleeping n p) w = w
  until_wait (starting c p) w = until_wait p (begin env c w)
  until_wait (navigating u p) w = until_wait p (record w { paths = u ∷ w.paths })
  until_wait (reloading p) w = until_wait p (record w { reloads = suc w.reloads })

  unfoldable pub rest_of : {A : Type 0} → Prog A → World → Prog A
  rest_of (ret a) w = ret a
  rest_of (raise e) w = raise e
  rest_of (dispatching a p) w = rest_of p (apply a w)
  rest_of (fetching r k) w = fetching r k
  rest_of (reading k) w = rest_of (k w.state) w
  rest_of (naming k) w = rest_of (k (env.fresh_uuid w.uuids)) (record w { uuids = suc w.uuids })
  rest_of (timing k) w = rest_of (k w.clock) w
  rest_of (sleeping n p) w = sleeping n p
  rest_of (starting c p) w = rest_of p (begin env c w)
  rest_of (navigating u p) w = rest_of p (record w { paths = u ∷ w.paths })
  rest_of (reloading p) w = rest_of p (record w { reloads = suc w.reloads })
