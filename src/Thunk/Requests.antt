-- ===== src/Thunk/Requests.antt =====
-- A program adds to the requests that were sent, and takes none back.
use shareframe_board.Common.{◌≡◌, refl, ◌∙◌, List, [], ◌∷◌, ◌++◌, append_assoc, sym, ◌+◌}
use shareframe_board.Board.{Request, Reply, DataOf}
use shareframe_board.Thunk.{
  Prog, ret, raise, dispatching, fetching, reading, naming, timing, sleeping, starting, navigating,
  reloading, Env, World, run, elapse, send, delivered, apply, begin,
}

module _ (env : Env) where
  pub requests-run :
      {A : Type 0} (p : Prog A) (w : World)
      → (later : List Request) × ((run env p w).0.requests ≡ later ++ w.requests)
  unfolding run send elapse apply begin
  requests-run (ret a) w = ([], refl)
  requests-run (raise e) w = ([], refl)
  requests-run (dispatching a p) w = requests-run p (apply a w)
  requests-run (fetching r k) w =
      let (later, h) = requests-run (k (delivered env r w.waits)) (send env r w) in
      (later ++ r ∷ [], h ∙ sym (append_assoc later (r ∷ []) w.requests))
  requests-run (reading k) w = requests-run (k w.state) w
  requests-run (naming k) w = requests-run (k _) _
  requests-run (timing k) w = requests-run (k _) w
  requests-run (sleeping n p) w = requests-run p (elapse env (n + env.latency w.waits) w)
  requests-run (starting c p) w = requests-run p (begin env c w)
  requests-run (navigating u p) w = requests-run p _
  requests-run (reloading p) w = requests-run p _

  pub requests-run_fetching :
      {A : Type 0} (r : Request) (k : Reply (DataOf r.endpoint) → Prog A) (w : World)
      → (later : List Request) × ((run env (fetching r k) w).0.requests ≡ later ++ r ∷ w.requests)
  unfolding run send elapse
  requests-run_fetching r k w = requests-run (k (delivered env r w.waits)) (send env r w)
