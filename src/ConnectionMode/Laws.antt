-- ===== src/ConnectionMode/Laws.antt =====
-- What holds of the network mode of connectionMode.Slice.tsx after every answer of the board.
use shareframe_board.Common.{ℕ, ◌≡◌, refl, Option, none, some, is_some, or_else}
use shareframe_board.Async.{Stage, pending, fulfilled, rejected}
use shareframe_board.ConnectionMode.{
  ConnectionModeState, ConnectionModeData, no_data, failed_at, mode_of, connection_mode_reducer,
}

-- The two accounts of the last failure, how long ago and when, are given together or not at all.
abbrev pub IsDated : ConnectionModeState → Type 0
IsDated s = is_some s.last_failed_at ≡ is_some s.last_failed_secs_ago

mode_of-IsDated : (now : ℕ) (d : ConnectionModeData) → IsDated (mode_of now d)
unfolding mode_of
mode_of-IsDated now d = is_some-failed_at now d.last_failed_secs_ago
  where
    is_some-failed_at : (now : ℕ) (o : Option ℕ) → is_some (failed_at now o) ≡ is_some o
    is_some-failed_at now none = refl
    is_some-failed_at now (some n) = refl

pub connection_mode_reducer-IsDated :
    (now : ℕ) (s : ConnectionModeState) (a : Stage (Option ConnectionModeData))
    → IsDated s
    → IsDated (connection_mode_reducer now s a)
unfolding connection_mode_reducer
connection_mode_reducer-IsDated now s (fulfilled d) h = mode_of-IsDated now (or_else d no_data)
connection_mode_reducer-IsDated now s pending h = h
connection_mode_reducer-IsDated now s (rejected e) h = h
