-- ===== src/Interleaving/Segments.antt =====
-- What a program does between two waits to the flags of slideshowOperation.Slice.tsx.
use shareframe_board.Common.{ℕ, ◌≡◌, refl, Option, none, some, List, [], ◌∷◌, All, subst, sym}
use shareframe_board.Board.{Thrown}
use shareframe_board.SlideshowOperation.{SlideshowOperationState}
use shareframe_board.Store.{RootState, Action, root_reducer}
use shareframe_board.Thunk.{
  Prog, ret, raise, dispatching, fetching, reading, naming, timing, sleeping, starting, navigating,
  reloading, Env, World, apply, begin, reduce_all,
}
use shareframe_board.Thunk.Waiting.{until_wait, rest_of}
use shareframe_board.Interleaving.{IsApart, IsPlain}
use shareframe_board.Interleaving.Phases.{Phase, next_phase, InPhase, Along}

apart-reduce_all :
    (now : ℕ) (s : RootState) (xs : List Action)
    → All IsApart xs
    → (reduce_all now s xs).slideshow_operation ≡ s.slideshow_operation
unfolding reduce_all root_reducer
apart-reduce_all now s [] h = refl
apart-reduce_all now s (Action.slideshow_operation a ∷ rest) h = elim h.0 [ ]
apart-reduce_all now s (a ∷ rest) h = apart-reduce_all now (root_reducer now s a) rest h.1

InPhase-meet :
    {P : Phase → Type 0} {C : Type 0} (o : Option Phase)
    → ((g : Phase) → o ≡ some g → P g → C)
    → InPhase o P
    → C
InPhase-meet none f p = elim p [ ]
InPhase-meet (some g) f p = f g refl p

-- A relation of phases and states that each action keeps holds at the next wait.
module _ (R : Phase → SlideshowOperationState → Type 0)
    (keep : (now : ℕ) (s : RootState) (a : Action) (g g' : Phase)
      → next_phase g a ≡ some g'
      → R g s.slideshow_operation
      → R g' (root_reducer now s a).slideshow_operation)
    (env : Env) (plain : IsPlain env) (Q : Phase → Unit {0} → Type 0)
    (E : Phase → Thrown → Type 0) where
  abbrev pub Reaches : World × Prog (Unit {0}) → Type 0
  Reaches (w, p) = (g : Phase) × R g w.state.slideshow_operation × Along Q E g p

  pub Along-until_wait :
      (g : Phase) (p : Prog (Unit {0})) (w : World)
      → R g w.state.slideshow_operation
      → Along Q E g p
      → Reaches (until_wait env p w, rest_of env p w)
  unfolding until_wait rest_of apply begin
  Along-until_wait g (ret a) w r h = (g, r, h)
  Along-until_wait g (raise e) w r h = (g, r, h)
  Along-until_wait g (dispatching a p) w r h =
      InPhase-meet (next_phase g a)
        (λ g' e h'. Along-until_wait g' p (apply a w) (keep w.clock w.state a g g' e r) h') h
  Along-until_wait g (fetching r' k) w r h = (g, r, h)
  Along-until_wait g (reading k) w r h = Along-until_wait g (k _) _ r (h _)
  Along-until_wait g (naming k) w r h = Along-until_wait g (k _) _ r (h _)
  Along-until_wait g (timing k) w r h = Along-until_wait g (k _) _ r (h _)
  Along-until_wait g (sleeping n p) w r h = (g, r, h)
  Along-until_wait g (starting c p) w r h =
      Along-until_wait g p (begin env c w)
        (subst (R g) (sym (apart-reduce_all w.clock w.state (env.on_start c) (plain c))) r) h
  Along-until_wait g (navigating u p) w r h = Along-until_wait g p _ r h
  Along-until_wait g (reloading p) w r h = Along-until_wait g p _ r h
