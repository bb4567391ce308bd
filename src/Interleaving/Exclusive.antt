-- ===== src/Interleaving/Exclusive.antt =====
-- The operations of slideshowOperation.Slice.tsx exclude one another, however the turns of the
-- dashboard are ordered, and none leaves its flag up for good.
use shareframe_board.Common.{◌≢◌, ◌≡◌, inl, inr, true, false, Bool-cases, All}
use shareframe_board.SlideshowOperation.{is_busy}
use shareframe_board.Interleaving.{System, IsReachable, IsAtEnd}
use shareframe_board.Interleaving.Phases.{Flag, up}
use shareframe_board.Interleaving.Flags.{AllDown-is_busy}
use shareframe_board.Interleaving.Owners.{IsOwned-IsAtEnd}
use shareframe_board.Interleaving.Sound.{op, reachable-IsSound}

-- Whatever operations are started, in whatever order the answers of the board arrive, and whatever
-- else is dispatched that raises none of the flags: while one flag is up, every other is down.
pub reachable_one :
    {s : System} (f g : Flag)
    → IsReachable s
    → f ≢ g
    → up f s.world.state.slideshow_operation ≡ true
    → up g s.world.state.slideshow_operation ≡ false
reachable_one {s} f g r d u = elim (Bool-cases (up g (op s.world))) [
  | inl v ↦ absurd (d ((reachable-IsSound r).one f g u v))
  | inr e ↦ e
]

-- In every state that the dashboard can come to in this way and in which no thunk waits any more, none of the flags is up, so that the guard
-- lets the next operation in.
pub reachable-is_busy :
    {s : System}
    → IsReachable s
    → All IsAtEnd s.waiting
    → is_busy s.world.state.slideshow_operation ≡ false
reachable-is_busy {s} r h = AllDown-is_busy (op s.world) λ f.
    elim (Bool-cases (up f (op s.world))) [
      | inl u ↦ absurd (IsOwned-IsAtEnd f s.waiting h ((reachable-IsSound r).owned f u))
      | inr d ↦ d
    ]
