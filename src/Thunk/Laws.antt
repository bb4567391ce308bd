-- ===== src/Thunk/Laws.antt =====
-- How `run` goes through the ways in which programs are put together.
use shareframe_board.Common.{◌≡◌, refl}
use shareframe_board.Board.{Thrown}
use shareframe_board.Thunk.{
  Prog, ret, raise, dispatching, fetching, reading, naming, timing, sleeping, starting, navigating,
  reloading, ◌>>=◌, ◌>>◌, try_catch, finally, Env, World, Ending, finished, threw, run,
}

module _ (env : Env) where
  abbrev pub continue : {A B : Type 0} → (A → Prog B) → World × Ending A → World × Ending B
  continue f (w, finished a) = run env (f a) w
  continue f (w, threw e) = (w, threw e)

  abbrev pub recover : {A : Type 0} → (Thrown → Prog A) → World × Ending A → World × Ending A
  recover h (w, finished a) = (w, finished a)
  recover h (w, threw e) = run env (h e) w

  abbrev pub conclude : {A : Type 0} → Prog (Unit {0}) → World × Ending A → World × Ending A
  conclude last (w, finished a) = run env (last >> ret a) w
  conclude last (w, threw e) = run env (last >> raise e) w

  pub run-bind :
      {A B : Type 0} (p : Prog A) (f : A → Prog B) (w : World)
      → run env (p >>= f) w ≡ continue f (run env p w)
  unfolding run
  run-bind (ret a) f w = refl
  run-bind (raise e) f w = refl
  run-bind (dispatching a p) f w = run-bind p f _
  run-bind (fetching r k) f w = run-bind (k _) f _
  run-bind (reading k) f w = run-bind (k _) f _
  run-bind (naming k) f w = run-bind (k _) f _
  run-bind (timing k) f w = run-bind (k _) f _
  run-bind (sleeping n p) f w = run-bind p f _
  run-bind (starting c p) f w = run-bind p f _
  run-bind (navigating u p) f w = run-bind p f _
  run-bind (reloading p) f w = run-bind p f _

  pub run-try_catch :
      {A : Type 0} (p : Prog A) (h : Thrown → Prog A) (w : World)
      → run env (try_catch p h) w ≡ recover h (run env p w)
  unfolding run
  run-try_catch (ret a) h w = refl
  run-try_catch (raise e) h w = refl
  run-try_catch (dispatching a p) h w = run-try_catch p h _
  run-try_catch (fetching r k) h w = run-try_catch (k _) h _
  run-try_catch (reading k) h w = run-try_catch (k _) h _
  run-try_catch (naming k) h w = run-try_catch (k _) h _
  run-try_catch (timing k) h w = run-try_catch (k _) h _
  run-try_catch (sleeping n p) h w = run-try_catch p h _
  run-try_catch (starting c p) h w = run-try_catch p h _
  run-try_catch (navigating u p) h w = run-try_catch p h _
  run-try_catch (reloading p) h w = run-try_catch p h _

  pub run-finally :
      {A : Type 0} (p : Prog A) (last : Prog (Unit {0})) (w : World)
      → run env (finally p last) w ≡ conclude last (run env p w)
  unfolding run
  run-finally (ret a) last w = refl
  run-finally (raise e) last w = refl
  run-finally (dispatching a p) last w = run-finally p last _
  run-finally (fetching r k) last w = run-finally (k _) last _
  run-finally (reading k) last w = run-finally (k _) last _
  run-finally (naming k) last w = run-finally (k _) last _
  run-finally (timing k) last w = run-finally (k _) last _
  run-finally (sleeping n p) last w = run-finally p last _
  run-finally (starting c p) last w = run-finally p last _
  run-finally (navigating u p) last w = run-finally p last _
  run-finally (reloading p) last w = run-finally p last _

  -- To show `P` of a try block that ends in `last`, show it of `last` wherever the rest may have
  -- left the world, and of the handler.
  pub try_then {ℓ} :
      {A : Type 0} (P : World × Ending A → Type ℓ) (body : Prog (Unit {0})) (last : Prog A)
      (h : Thrown → Prog A) (w : World)
      → ((w' : World) → P (recover h (run env last w')))
      → ((w' : World) (e : Thrown) → P (run env (h e) w'))
      → P (run env (try_catch (body >> last) h) w)
  try_then {A} P body last h w ends fails =
      rw (run-try_catch (body >> last) h w, run-bind body (λ _. last) w) (go (run env body w))
    where
      go : (r : World × Ending (Unit {0})) → P (recover h (continue (λ _. last) r))
      go (w', finished _) = ends w'
      go (w', threw e) = fails w' e
