-- ===== src/Timers.antt =====
-- dashboard-frontend/frontend/src/store/timers/timers.Slice.tsx: the countdown timers, as state and
-- reducer. The record of timers is an association list in insertion order; times are milliseconds,
-- durations are seconds. `now` stands for `Date.now()`.
pub mod Dict
pub mod Invariant
use shareframe_board.Common.{
  ℕ, ◌-◌, Bool, true, false, not, ◌&&◌, Option, none, some, List, [], ◌∷◌, String, ltb, or_else,
  if◌then◌else◌, arith,
}
use shareframe_board.Common.Int.{ℤ, pos, ltb_ℤ, pos_part}
use Dict.{lookup, insert, update_at, delete, map_values}

abbrev pub default_duration : ℕ
default_duration = 180

pub record Timer : Type 0 where
  pub id : String
  pub duration : ℕ
  pub remaining : ℕ
  pub is_active : Bool
  pub start_timestamp : Option ℕ

pub record TimerState : Type 0 where
  pub timers : List (String × Timer)
  pub last_sync_time : ℕ

abbrev pub initial_state : ℕ → TimerState
initial_state now = record { timers = []; last_sync_time = now }

pub data TimersAction : Type 0 where
  add_timer : String → Option ℕ → TimersAction
  start_timer stop_timer reset_timer : String → TimersAction
  update_timer : String → Option ℤ → TimersAction
  remove_timer : String → TimersAction
  reset_all_timers : TimersAction
  sync_timers_fulfilled : ℕ → TimersAction

unfoldable pub new_timer : String → ℕ → Timer
new_timer id duration = record {
  id = id;
  duration = duration;
  remaining = duration;
  is_active = false;
  start_timestamp = none;
}

unfoldable pub started : ℕ → Timer → Timer
started now t = record t { is_active = true; start_timestamp = some now }

unfoldable pub stopped : Timer → Timer
stopped t = record t { is_active = false; start_timestamp = none }

unfoldable pub rewound : Timer → Timer
rewound t = record t { remaining = t.duration; is_active = false; start_timestamp = none }

unfoldable pub with_remaining : ℤ → Timer → Timer
with_remaining remaining t =
    if ltb_ℤ (pos 0) remaining
    then record t { remaining = pos_part remaining }
    else record t { remaining = 0; is_active = false; start_timestamp = none }

unfoldable pub timers_reducer : ℕ → TimerState → TimersAction → TimerState
timers_reducer now s (add_timer id duration) = elim (lookup id s.timers) [
  | none ↦ record s {
    timers = insert id (new_timer id (or_else duration default_duration)) s.timers;
  }
  | some t ↦ s
]
timers_reducer now s (start_timer id) = elim (lookup id s.timers) [
  | none ↦ s
  | some t ↦
      if not t.is_active
      then record s { timers = update_at id (started now) s.timers; last_sync_time = now }
      else s
]
timers_reducer now s (stop_timer id) = record s { timers = update_at id stopped s.timers }
timers_reducer now s (reset_timer id) = record s { timers = update_at id rewound s.timers }
timers_reducer now s (update_timer id none) = s
timers_reducer now s (update_timer id (some remaining)) = record s {
  timers = update_at id (with_remaining remaining) s.timers;
}
timers_reducer now s (remove_timer id) = record s { timers = delete id s.timers }
timers_reducer now s reset_all_timers = record s { timers = map_values rewound s.timers }
timers_reducer now s (sync_timers_fulfilled time) = record s { last_sync_time = time }

-- The selectors.
abbrev pub select_timer : String → TimerState → Option Timer
select_timer id s = lookup id s.timers

unfoldable pub active_values : List (String × Timer) → List Timer
active_values [] = []
active_values ((_, t) ∷ rest) = if t.is_active then t ∷ active_values rest else active_values rest

unfoldable pub select_active_timers : TimerState → List Timer
unfolding active_values
select_active_timers s = active_values s.timers
