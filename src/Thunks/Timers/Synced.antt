-- ===== src/Thunks/Timers/Synced.antt =====
-- What the sync of one timer and of all timers of timers.Slice.tsx leave in the state.
use shareframe_board.Common.{
  ℕ, zero, suc, ◌-◌, ◌/◌, ◌≤◌, ◌<◌, ◌≡◌, refl, sym, fun_ext, ap, ◌∙◌, true, false, Option, none,
  some, List, [], ◌∷◌, String, str_eq, arith, eq_iff, if◌then◌else◌,
}
use shareframe_board.Common.Int.{ℤ, pos, ◌-ℤ◌}
use shareframe_board.Timers.Dict.{
  lookup, update_at, update_at-update_at, lookup-update_at, update_at-head, update_at-unchanged,
  map_values, HasDistinctKeys,
}
use shareframe_board.Timers.{Timer, stopped, with_remaining, timers_reducer}
use shareframe_board.Store.{root_reducer}
use shareframe_board.Thunk.{Prog, ret, ◌>>◌, Env, World, finished, run, apply}
use shareframe_board.Thunk.Laws.{run-bind}
use shareframe_board.Thunks.Timers.{
  running_since, seconds_between, left_of, set_remaining, sync_entries, sync_timers,
  sync_specific_timer,
}

abbrev timers_of : World → List (String × Timer)
timers_of w = w.state.timers.timers

-- A timer whose seconds left are known: it stops when none are.
abbrev pub with_left : ℕ → Timer → Timer
with_left zero t = record t { remaining = 0; is_active = false; start_timestamp = none }
with_left (suc n) t = record t { remaining = suc n }

with_remaining-with_left : (n : ℕ) → with_remaining (pos n) ≡ with_left n
unfolding with_remaining
with_remaining-with_left zero = refl
with_remaining-with_left (suc n) = fun_ext (λ t. ground arith)

set_remaining_timers :
    (env : Env) (id : String) (n : ℕ) (w : World)
    → timers_of (run env (set_remaining id n) w).0 ≡ update_at id (with_left n) (timers_of w)
unfolding set_remaining run apply root_reducer timers_reducer with_remaining stopped
set_remaining_timers env id zero w = update_at-update_at id _ _ (timers_of w)
set_remaining_timers env id (suc n) w = ground (arith, with_remaining-with_left (suc n))

left_of-seconds_between :
    (total since now : ℕ)
    → since ≤ now
    → left_of total (seconds_between since now) ≡ total - (now - since) / 1000
unfolding ◌-ℤ◌
left_of-seconds_between total since now past = ground arith

lookup-set_remaining :
    (env : Env) (id j : String) (n : ℕ) (t : Timer) (w : World)
    → lookup id (timers_of w) ≡ some t
    → lookup j (timers_of (run env (set_remaining id n) w).0)
      ≡ (if str_eq id j then some (with_left n t) else lookup j (timers_of w))
lookup-set_remaining env id j n t w found =
    rw (set_remaining_timers env id n w) (lookup-update_at id j (with_left n) (timers_of w) t found)

run-set_remaining :
    (env : Env) {A : Type 0} (id : String) (n : ℕ) (p : Prog A) (w : World)
    → run env (set_remaining id n >> p) w ≡ run env p (run env (set_remaining id n) w).0
unfolding set_remaining run
run-set_remaining env id n p w = ground arith

run-sync_specific_timer :
    (env : Env) (w : World) (id : String) (t : Timer) (since : ℕ)
    → lookup id (timers_of w) ≡ some t
    → t.is_active ≡ true
    → t.start_timestamp ≡ some since
    → 0 < since
    → since ≤ w.clock
    → let left = t.duration - (w.clock - since) / 1000 in
      run env (sync_specific_timer id) w
      ≡ ((run env (set_remaining id left) w).0, finished (id, some left))
unfolding sync_specific_timer run
run-sync_specific_timer env w id t since found active started positive past = ground (
  arith,
  left_of-seconds_between t.duration since w.clock past,
  run-set_remaining env {A = String × Option ℕ} id (t.duration - (w.clock - since) / 1000)
      (ret (id, some (t.duration - (w.clock - since) / 1000))) w,
)

-- A sync of a timer that runs since a time in the past shows the seconds of its duration that have
-- not passed since, and stops the timer if none are left. It returns what it shows, and changes no
-- other timer.
pub sync_specific_timer_left :
    (env : Env) (w : World) (id : String) (t : Timer) (since : ℕ)
    → lookup id w.state.timers.timers ≡ some t
    → t.is_active ≡ true
    → t.start_timestamp ≡ some since
    → 0 < since
    → since ≤ w.clock
    → let left = t.duration - (w.clock - since) / 1000 in
      let u = run env (sync_specific_timer id) w in
      ((j : String)
        → lookup j u.0.state.timers.timers
          ≡ (if str_eq id j then some (with_left left t) else lookup j w.state.timers.timers))
      × (u.1 ≡ finished (id, some left))
sync_specific_timer_left env w id t since found active started positive past =
    rw (run-sync_specific_timer env w id t since found active started positive past)
      ((λ j. lookup-set_remaining env id j _ t w found), refl)

-- What a sync does to a timer that was `t` when the sync began, `elapsed` seconds after the last.
abbrev pub catching_up : ℤ → Timer → Timer → Timer
catching_up elapsed t = elim (running_since t) [
  | none ↦ λ x. x
  | some since ↦ with_left (left_of t.remaining elapsed)
]

abbrev pub caught_up : ℤ → Timer → Timer
caught_up elapsed t = catching_up elapsed t t

update_all : ℤ → List (String × Timer) → List (String × Timer) → List (String × Timer)
update_all elapsed [] d = d
update_all elapsed ((id, t) ∷ rest) d =
    update_all elapsed rest (update_at id (catching_up elapsed t) d)

run-entry :
    (env : Env) (id : String) (n : ℕ) (since : Option ℕ) (p : Prog (Unit {0})) (w : World)
    → (v : World) × (run env (elim since [ none ↦ ret tt | some _ ↦ set_remaining id n ] >> p) w
        ≡ run env p v)
      × (timers_of v
          ≡ update_at id (elim since [ none ↦ λ x. x | some _ ↦ with_left n ]) (timers_of w))
run-entry env id n none p w = (w, refl, sym (update_at-unchanged id (timers_of w)))
run-entry env id n (some since) p w = (
  (run env (set_remaining id n) w).0,
  run-set_remaining env id n p w,
  set_remaining_timers env id n w,
)

run-sync_entries :
    (env : Env) (elapsed : ℤ) (entries : List (String × Timer)) (w : World)
    → (v : World) × (run env (sync_entries elapsed entries) w ≡ (v, finished tt))
      × (timers_of v ≡ update_all elapsed entries (timers_of w))
unfolding sync_entries run update_all
run-sync_entries env elapsed [] w = (w, refl, refl)
run-sync_entries env elapsed ((id, t) ∷ rest) w =
    let (v, runs, timers) =
      run-entry env id (left_of t.remaining elapsed) (running_since t) (sync_entries elapsed rest)
        w in
    let (u, ends, all) = run-sync_entries env elapsed rest v in
    (u, runs ∙ ends, all ∙ ap (update_all elapsed rest) timers)

update_all-other :
    (elapsed : ℤ) (entries : List (String × Timer)) (k : String) (v : Timer)
    (d : List (String × Timer))
    → lookup k entries ≡ none
    → update_all elapsed entries ((k, v) ∷ d) ≡ (k, v) ∷ update_all elapsed entries d
unfolding update_all lookup update_at
update_all-other elapsed [] k v d h = refl
update_all-other elapsed ((id, t) ∷ rest) k v d h = ground (
  arith,
  eq_iff id k,
  eq_iff k id,
  update_all-other elapsed rest k v (update_at id (catching_up elapsed t) d),
)

update_all-map_values :
    (elapsed : ℤ) (d : List (String × Timer))
    → HasDistinctKeys d
    → update_all elapsed d d ≡ map_values (caught_up elapsed) d
unfolding update_all map_values
update_all-map_values elapsed [] h = refl
update_all-map_values elapsed ((id, t) ∷ rest) (h, hs) =
    rw
      (
        update_at-head id (catching_up elapsed t) t rest,
        update_all-other elapsed rest id (caught_up elapsed t) rest h,
      )
      (ap (λ e. (id, caught_up elapsed t) ∷ e) (update_all-map_values elapsed rest hs))

-- A sync of all timers takes the seconds since the last sync off each timer that runs, down to 0,
-- where the timer stops; the others stay, in their order. It returns the time.
pub sync_timers-caught_up :
    (env : Env) (w : World)
    → HasDistinctKeys w.state.timers.timers
    → let u = run env sync_timers w in
      let elapsed = seconds_between w.state.timers.last_sync_time w.clock in
      (u.0.state.timers.timers ≡ map_values (caught_up elapsed) w.state.timers.timers)
      × (u.1 ≡ finished w.clock)
unfolding sync_timers run
sync_timers-caught_up env w distinct =
    let elapsed = seconds_between w.state.timers.last_sync_time w.clock in
    let (u, ends, all) = run-sync_entries env elapsed (timers_of w) w in
    rw (run-bind env (sync_entries elapsed (timers_of w)) (λ _. ret w.clock) w, ends)
      (all ∙ update_all-map_values elapsed (timers_of w) distinct, refl)
