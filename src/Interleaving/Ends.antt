-- ===== src/Interleaving/Ends.antt =====
-- When an operation of slideshowOperation.Slice.tsx has lowered the flag that it raised.
use shareframe_board.Board.{Thrown}
use shareframe_board.Thunk.{Prog, try_catch, ◌>>◌}
use shareframe_board.Interleaving.Phases.{Phase, idle, released, Along, Along-bind, Along-try_catch}

abbrev pub IsDone : Phase → Type 0
IsDone released = Unit
IsDone _ = ⊥

abbrev pub Ends : Prog (Unit {0}) → Phase → Type 0
Ends p g = Along (λ g' _. IsDone g') (λ g' _. IsDone g') g p

-- The handler of an operation is met while its flag is up.
abbrev pub Caught : (Thrown → Prog (Unit {0})) → Phase → Thrown → Type 0
Caught h g e = Ends (h e) g

abbrev pub Goes : (Thrown → Prog (Unit {0})) → Prog (Unit {0}) → Phase → Unit {0} → Type 0
Goes h last g _ = Along (λ g' _. IsDone g') (Caught h) g last

pub tried :
    (attempt last : Prog (Unit {0})) (h : Thrown → Prog (Unit {0}))
    → Along (Goes h last) (Caught h) idle attempt
    → Ends (try_catch (attempt >> last) h) idle
tried attempt last h goes =
    Along-try_catch _ _ idle (attempt >> last) h
      (Along-bind _ (Caught h) idle attempt (λ _. last) goes)
