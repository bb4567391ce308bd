-- ===== src/Async.antt =====
-- How an asynchronous thunk ends, as the reducers of the slices see it: `createAsyncThunk` of the
-- Redux toolkit dispatches `pending` before the payload creator runs, and then either `fulfilled`
-- with what it returned or `rejected`.
use shareframe_board.Common.{Option, String}

-- `action.payload` of a rejected action is what `rejectWithValue` was given, and undefined if the
-- creator threw; `action.error.message` is the text of what was thrown.
pub record Rejection : Type 0 where
  pub payload : Option String
  pub error_message : Option String

-- The stages of a thunk whose fulfilled action carries an `A`.
pub data Stage (A : Type 0) : Type 0 where
  pending : Stage A
  fulfilled : A → Stage A
  rejected : Rejection → Stage A

-- What a payload creator comes to, if it does not throw.
pub data Settled (A : Type 0) : Type 0 where
  returned : A → Settled A
  rejected_with : String → Settled A
