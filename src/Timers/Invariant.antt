-- ===== src/Timers/Invariant.antt =====
-- What holds of the timers of timers.Slice.tsx between two actions.
use shareframe_board.Common.{
  ℕ, ◌≡◌, refl, none, some, String, arith, is_some, or_else, Option-cases, Bool-cases, inl, inr,
}
use shareframe_board.Common.Int.{ℤ}
use shareframe_board.Timers.Dict.{
  lookup, update_at, HasDistinctKeys, Entries, Entries-update_at, Entries-insert, Entries-delete,
  Entries-map_values, insert-HasDistinctKeys, update_at-HasDistinctKeys, delete-HasDistinctKeys,
  map_values-HasDistinctKeys,
}
use shareframe_board.Timers.{
  Timer, TimerState, TimersAction, add_timer, start_timer, stop_timer, reset_timer, update_timer,
  default_duration, remove_timer, reset_all_timers, sync_timers_fulfilled, new_timer, started,
  stopped, rewound, with_remaining, timers_reducer,
}

-- A timer stands under its id, and has a start time exactly if it is active.
pub record IsSound (key : String) (t : Timer) : Type 0 where
  pub named : t.id ≡ key
  pub timed : t.is_active ≡ is_some t.start_timestamp

pub record IsValid (s : TimerState) : Type 0 where
  pub sound : Entries IsSound s.timers
  pub distinct : HasDistinctKeys s.timers

updated :
    (s : TimerState) (id : String) (f : Timer → Timer)
    → IsValid s
    → ((t : Timer) → lookup id s.timers ≡ some t → IsSound id t → IsSound id (f t))
    → IsValid (record s { timers = update_at id f s.timers })
updated s id f v keep = record {
  sound = Entries-update_at IsSound id f s.timers keep v.sound;
  distinct = update_at-HasDistinctKeys id f s.timers v.distinct;
}

started-IsSound : (now : ℕ) (key : String) (t : Timer) → IsSound key t → IsSound key (started now t)
unfolding started
started-IsSound now key t h = record { named = h.named; timed = refl }

stopped-IsSound : (key : String) (t : Timer) → IsSound key t → IsSound key (stopped t)
unfolding stopped
stopped-IsSound key t h = record { named = h.named; timed = refl }

rewound-IsSound : (key : String) (t : Timer) → IsSound key t → IsSound key (rewound t)
unfolding rewound
rewound-IsSound key t h = record { named = h.named; timed = refl }

new_timer-IsSound : (key : String) (d : ℕ) → IsSound key (new_timer key d)
unfolding new_timer
new_timer-IsSound key d = record { named = refl; timed = refl }

with_remaining-IsSound :
    (r : ℤ) (key : String) (t : Timer) → IsSound key t → IsSound key (with_remaining r t)
unfolding with_remaining
with_remaining-IsSound r key t h = ground arith

-- Every action keeps each timer under its id and with a start time exactly if it is active, and keeps
-- the keys distinct.
pub timers_reducer-IsValid :
    (now : ℕ) (s : TimerState) (a : TimersAction) → IsValid s → IsValid (timers_reducer now s a)
unfolding timers_reducer
timers_reducer-IsValid now s (add_timer id d) v = elim (Option-cases (lookup id s.timers)) [
  | inl missing ↦
      rw (missing, timers_reducer)
        (record {
          sound = Entries-insert IsSound id _ s.timers (new_timer-IsSound id _) v.sound;
          distinct = insert-HasDistinctKeys id _ s.timers missing v.distinct;
        })
  | inr (t, found) ↦ rw (found, timers_reducer) v
]
timers_reducer-IsValid now s (start_timer id) v = elim (Option-cases (lookup id s.timers)) [
  | inl missing ↦ rw (missing, timers_reducer) v
  | inr (t, found) ↦ elim (Bool-cases t.is_active) [
    | inl running ↦ rw (found, timers_reducer, running) v
    | inr idle ↦
        let u = updated s id (started now) v (λ t' _ q. started-IsSound now id t' q) in
        rw (found, timers_reducer, idle) (record { sound = u.sound; distinct = u.distinct })
  ]
]
timers_reducer-IsValid now s (stop_timer id) v =
    updated s id stopped v (λ t _ q. stopped-IsSound id t q)
timers_reducer-IsValid now s (reset_timer id) v =
    updated s id rewound v (λ t _ q. rewound-IsSound id t q)
timers_reducer-IsValid now s (update_timer id none) v = v
timers_reducer-IsValid now s (update_timer id (some r)) v =
    updated s id (with_remaining r) v (λ t _ q. with_remaining-IsSound r id t q)
timers_reducer-IsValid now s (remove_timer id) v = record {
  sound = Entries-delete IsSound id s.timers v.sound;
  distinct = delete-HasDistinctKeys id s.timers v.distinct;
}
timers_reducer-IsValid now s reset_all_timers v = record {
  sound = Entries-map_values IsSound rewound s.timers rewound-IsSound v.sound;
  distinct = map_values-HasDistinctKeys rewound s.timers v.distinct;
}
timers_reducer-IsValid now s (sync_timers_fulfilled t) v = record {
  sound = v.sound;
  distinct = v.distinct;
}

-- The keys stay distinct under every action.
pub timers_reducer-HasDistinctKeys :
    (now : ℕ) (s : TimerState) (a : TimersAction)
    → HasDistinctKeys s.timers
    → HasDistinctKeys (timers_reducer now s a).timers
unfolding timers_reducer
timers_reducer-HasDistinctKeys now s (add_timer id d) h =
    ground (arith, insert-HasDistinctKeys id (new_timer id (or_else d default_duration)) s.timers)
timers_reducer-HasDistinctKeys now s (start_timer id) h =
    ground (arith, update_at-HasDistinctKeys id (started now) s.timers h)
timers_reducer-HasDistinctKeys now s (stop_timer id) h =
    update_at-HasDistinctKeys id stopped s.timers h
timers_reducer-HasDistinctKeys now s (reset_timer id) h =
    update_at-HasDistinctKeys id rewound s.timers h
timers_reducer-HasDistinctKeys now s (update_timer id none) h = h
timers_reducer-HasDistinctKeys now s (update_timer id (some r)) h =
    update_at-HasDistinctKeys id (with_remaining r) s.timers h
timers_reducer-HasDistinctKeys now s (remove_timer id) h = delete-HasDistinctKeys id s.timers h
timers_reducer-HasDistinctKeys now s reset_all_timers h =
    map_values-HasDistinctKeys rewound s.timers h
timers_reducer-HasDistinctKeys now s (sync_timers_fulfilled t) h = h
