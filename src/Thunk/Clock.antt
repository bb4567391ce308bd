-- ===== src/Thunk/Clock.antt =====
-- Time only goes forward while a program runs.
use shareframe_board.Common.{◌+◌, ◌≤◌, arith}
use shareframe_board.Board.{Request}
use shareframe_board.Thunk.{
  Prog, ret, raise, dispatching, fetching, reading, naming, timing, sleeping, starting, navigating,
  reloading, Env, World, run, elapse, send, delivered, apply, begin,
}

module _ (env : Env) where
  pub clock-run : {A : Type 0} (p : Prog A) (w : World) → w.clock ≤ (run env p w).0.clock
  unfolding run send elapse apply begin
  clock-run (ret a) w = omega arith
  clock-run (raise e) w = omega arith
  clock-run (dispatching a p) w = omega (arith, clock-run p (apply a w))
  clock-run (fetching r k) w = omega (arith, clock-run (k (delivered env r w.waits)) (send env r w))
  clock-run (reading k) w = clock-run (k _) w
  clock-run (naming k) w = clock-run (k _) _
  clock-run (timing k) w = clock-run (k _) w
  clock-run (sleeping n p) w = omega (arith, clock-run p (elapse env (n + env.latency w.waits) w))
  clock-run (starting c p) w = clock-run p _
  clock-run (navigating u p) w = clock-run p _
  clock-run (reloading p) w = clock-run p _

  -- No answer is awaited longer than the request's timeout.
  pub clock-send :
      (r : Request) (w : World)
      → (w.clock ≤ (send env r w).clock) × ((send env r w).clock ≤ w.clock + r.timeout)
  unfolding send elapse
  clock-send r w = omega arith
