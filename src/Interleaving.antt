-- ===== src/Interleaving.antt =====
-- The dashboard with any number of thunks of dashboard-frontend/frontend/src/store under way at once.
-- A step runs one of them from one wait to its next, as the event loop of the browser does.
pub mod Phases
pub mod Flags
pub mod Segments
pub mod Ends
pub mod Watching
pub mod Operations
pub mod Owners
pub mod Sound
pub mod Exclusive
use shareframe_board.Common.{ℕ, ◌+◌, ◌≡◌, List, [], ◌∷◌, ◌++◌, All}
use shareframe_board.Board.{Request, Reply, DataOf}
use shareframe_board.SlideshowOperation.{
  set_toggle_status, set_clear_display_status, set_skip_image_status, set_show_image_status,
  set_update_interval_status, reset_operation, initial_state,
}
use shareframe_board.Common.{true}
use shareframe_board.Store.{Action}
use shareframe_board.Thunk.{Prog, ret, raise, fetching, sleeping, Env, World, Call, apply}
use shareframe_board.Thunk.Waiting.{until_wait, rest_of}
use shareframe_board.Thunks.Slideshow.Operations.{Operation, thunk_of}

-- An action of the rest of the dashboard, which raises no flag of an exclusive operation.
abbrev pub RaisesNone : Action → Type 0
RaisesNone (Action.slideshow_operation (set_toggle_status true)) = ⊥
RaisesNone (Action.slideshow_operation (set_clear_display_status true)) = ⊥
RaisesNone (Action.slideshow_operation (set_skip_image_status true)) = ⊥
RaisesNone (Action.slideshow_operation (set_show_image_status true)) = ⊥
RaisesNone (Action.slideshow_operation (set_update_interval_status true)) = ⊥
RaisesNone _ = Unit

-- A thunk that another one starts is none of the operations: its actions leave their slice alone.
abbrev pub IsApart : Action → Type 0
IsApart (Action.slideshow_operation a) = ⊥
IsApart _ = Unit

abbrev pub IsPlain : Env → Type 0
IsPlain env = (c : Call) → All IsApart (env.on_start c)

pub record System : Type 0 where
  pub world : World
  pub waiting : List (Prog (Unit {0}))

abbrev pub system : World → List (Prog (Unit {0})) → System
system w ps = record { world = w; waiting = ps }

-- One turn: an operation is started, an answer arrives, a delay is over, another part of the
-- dashboard dispatches an action, or time passes.
infix 40 ◌⟶◌
pub data ◌⟶◌ : System → System → Type 0 where
  operate :
      (env : Env) (h : IsPlain env) (o : Operation) (w : World) (ps : List (Prog (Unit {0})))
      → system w ps ⟶ system (until_wait env (thunk_of o) w) (rest_of env (thunk_of o) w ∷ ps)
  answer :
      (env : Env) (h : IsPlain env) (r : Request) (k : Reply (DataOf r.endpoint) → Prog (Unit {0}))
      (x : Reply (DataOf r.endpoint)) (w : World) (before after : List (Prog (Unit {0})))
      → system w (before ++ fetching r k ∷ after)
        ⟶ system (until_wait env (k x) w) (before ++ rest_of env (k x) w ∷ after)
  wake :
      (env : Env) (h : IsPlain env) (n : ℕ) (p : Prog (Unit {0})) (w : World)
      (before after : List (Prog (Unit {0})))
      → system w (before ++ sleeping n p ∷ after)
        ⟶ system (until_wait env p w) (before ++ rest_of env p w ∷ after)
  react :
      (a : Action) (h : RaisesNone a) (w : World) (ps : List (Prog (Unit {0})))
      → system w ps ⟶ system (apply a w) ps
  tick :
      (d : ℕ) (w : World) (ps : List (Prog (Unit {0})))
      → system w ps ⟶ system (record w { clock = w.clock + d }) ps

-- What the dashboard can come to, from the state in which it is opened.
pub data IsReachable : System → Type 0 where
  opened : (w : World) (h : w.state.slideshow_operation ≡ initial_state) → IsReachable (system w [])
  later : {s t : System} → IsReachable s → s ⟶ t → IsReachable t

-- A program at its end.
abbrev pub IsAtEnd : Prog (Unit {0}) → Type 0
IsAtEnd (ret a) = Unit
IsAtEnd (raise e) = Unit
IsAtEnd _ = ⊥
