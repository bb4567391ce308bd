-- ===== src/Thunks/Slideshow/Guard.antt =====
-- The guard at the head of each operation of slideshowOperation.Slice.tsx.
use shareframe_board.Common.{◌≡◌, suc, Bool, true, false, String}
use shareframe_board.SlideshowOperation.{SlideshowOperationState}
use shareframe_board.Thunk.{Prog, Env, World, finished, run}
use shareframe_board.Thunks.Slideshow.Common.{unless_state}

-- The world after an id was drawn.
abbrev pub drawn : World → World
drawn w = record w { uuids = suc w.uuids }

module _ (env : Env) (busy : SlideshowOperationState → Bool) (p : String → Prog (Unit {0}))
    (w : World) where
  -- A call that the guard turns away does nothing.
  pub unless_state_busy :
      busy w.state.slideshow_operation ≡ true → run env (unless_state busy p) w ≡ (w, finished tt)
  unfolding run
  unless_state_busy h = rw (h, run)

  pub unless_state_free :
      busy w.state.slideshow_operation ≡ false
      → run env (unless_state busy p) w ≡ run env (p (env.fresh_uuid w.uuids)) (drawn w)
  unfolding run
  unless_state_free h = rw (h, run)
