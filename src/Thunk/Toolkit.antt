-- ===== src/Thunk/Toolkit.antt =====
-- `createAsyncThunk` of the Redux toolkit, which the slices of dashboard-frontend/frontend/src/store
-- use and which is not part of this repository: an interface with the documented course of a thunk.
use shareframe_board.Common.{◌≡◌, Option, none, some, String}
use shareframe_board.Async.{Stage, pending, fulfilled, rejected, Settled, returned, rejected_with}
use shareframe_board.Board.{Thrown, error_of, other}
use shareframe_board.Store.{Action}
use shareframe_board.Thunk.{Prog, Env, World, Ending, finished, threw, run, apply}

-- `throw error` in a creator reaches the reducers as its message; what a value that is no `Error`
-- is turned into is the toolkit's.
abbrev pub message_in : Option String → Thrown → Option String
message_in text (error_of m) = some m
message_in text other = text

-- The action that ends a thunk.
abbrev pub last_stage : {A : Type 0} → Option String → Ending (Settled A) → Stage A
last_stage text (finished (returned a)) = fulfilled a
last_stage text (finished (rejected_with m)) =
    rejected (record { payload = some m; error_message = some "Rejected" })
last_stage text (threw e) = rejected (record { payload = none; error_message = message_in text e })

abbrev pub concluded :
    {A : Type 0}
    → (Stage A → Action)
    → Option String
    → World × Ending (Settled A)
    → World × Ending (Unit {0})
concluded stage text (w, ending) = (apply (stage (last_stage text ending)) w, finished tt)

-- A thunk dispatches `pending`, runs its creator, and dispatches one last action; it never throws.
pub record Toolkit : Type 1 where
  pub create_async_thunk : {A : Type 0} → (Stage A → Action) → Prog (Settled A) → Prog (Unit {0})
  pub other_text : Option String
  pub course :
      (env : Env) {A : Type 0} (stage : Stage A → Action) (creator : Prog (Settled A)) (w : World)
      → run env (create_async_thunk stage creator) w
        ≡ concluded stage other_text (run env creator (apply (stage pending) w))
