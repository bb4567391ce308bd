-- ===== src/Interleaving/Watching.antt =====
-- The toggle of slideshowOperation.Slice.tsx and its loop, along every path.
use shareframe_board.Common.{
  arith, Bool, true, false, ℕ, zero, suc, not, ◌-◌, ltb, if◌then◌else◌, String,
}
use shareframe_board.Board.{failed, answered, Thrown}
use shareframe_board.Thunk.{
  Prog, try_catch, ◌>>◌, sleeping, ret, when, throw_error, date_now, data_of, ◌>>=◌,
}
use shareframe_board.Thunks.Slideshow.Toggle.{
  check_once, has_switched, toggled, check_failed, switch_timed_out, monitor_operation,
  toggle_command, toggle_attempt, toggle_failed, poll_interval, max_operation_wait_time,
  monitor_rounds,
}
use shareframe_board.Interleaving.Phases.{
  toggling, clearing, skipping, showing, updating, Phase, idle, holding, released, Along,
  Along-bind, Along-try_catch, Along-map, Along-if, Along-read_json, Along-guard, Along-data_of,
}
use shareframe_board.Interleaving.Ends.{IsDone, Ends, Caught}

-- While the board is watched the flag is up, or was lowered when the board had switched.
abbrev Toggles : Phase → Type 0
Toggles (holding toggling) = Unit
Toggles released = Unit
Toggles _ = ⊥

abbrev Over : Phase → Bool → Type 0
Over (holding toggling) false = Unit
Over released b = Unit
Over _ _ = ⊥

check_goes :
    (id : String) (was_active : Bool) (g : Phase)
    → Toggles g
    → Along Over (λ g' e. Toggles g') g (check_once id was_active)
unfolding check_once has_switched toggled
check_goes id b idle h x = elim h [ ]
check_goes id b (holding clearing) h x = elim h [ ]
check_goes id b (holding skipping) h x = elim h [ ]
check_goes id b (holding showing) h x = elim h [ ]
check_goes id b (holding updating) h x = elim h [ ]
check_goes id b (holding toggling) h (failed e) = tt
check_goes id b released h (failed e) = tt
check_goes id true (holding toggling) h (answered x) = ground arith
check_goes id false (holding toggling) h (answered x) = ground arith
check_goes id true released h (answered x) = ground arith
check_goes id false released h (answered x) = ground arith

check-Caught :
    (id : String) (g : Phase) (e : Thrown)
    → Toggles g
    → Along Over (Caught (toggle_failed id)) g (check_failed id e)
unfolding check_failed
check-Caught id idle e h = elim h [ ]
check-Caught id (holding clearing) e h = elim h [ ]
check-Caught id (holding skipping) e h = elim h [ ]
check-Caught id (holding showing) e h = elim h [ ]
check-Caught id (holding updating) e h = elim h [ ]
check-Caught id (holding toggling) e h = tt
check-Caught id released e h = tt

timed_out_ends :
    (id : String) (g : Phase)
    → Toggles g
    → Along (λ g' _. IsDone g') (Caught (toggle_failed id)) g (switch_timed_out id)
unfolding switch_timed_out
timed_out_ends id idle h = elim h [ ]
timed_out_ends id (holding clearing) h = elim h [ ]
timed_out_ends id (holding skipping) h = elim h [ ]
timed_out_ends id (holding showing) h = elim h [ ]
timed_out_ends id (holding updating) h = elim h [ ]
timed_out_ends id (holding toggling) h = λ _. tt
timed_out_ends id released h = λ _. tt

toggle-Caught : (id : String) (g : Phase) (e : Thrown) → Toggles g → Caught (toggle_failed id) g e
unfolding toggle_failed
toggle-Caught id idle e h = elim h [ ]
toggle-Caught id (holding clearing) e h = elim h [ ]
toggle-Caught id (holding skipping) e h = elim h [ ]
toggle-Caught id (holding showing) e h = elim h [ ]
toggle-Caught id (holding updating) e h = elim h [ ]
toggle-Caught id (holding toggling) e h = λ _. tt
toggle-Caught id released e h = λ _. tt

-- A round whose check is not over goes on with what holds of the next round.
round_goes :
    (id : String) (p : Prog (Unit {0}))
    → ((g : Phase) → Toggles g → Along (λ g' _. IsDone g') (Caught (toggle_failed id)) g p)
    → (g : Phase) (over : Bool) → Over g over
    → Along
        (λ g' _. IsDone g')
        (Caught (toggle_failed id))
        g
        (if over then ret tt else sleeping poll_interval p)
round_goes id p next released true h = tt
round_goes id p next released false h = next released tt
round_goes id p next (holding toggling) false h = next (holding toggling) tt
round_goes id p next (holding toggling) true h = elim h [ ]
round_goes id p next idle b h = elim h [ ]
round_goes id p next (holding clearing) b h = elim h [ ]
round_goes id p next (holding skipping) b h = elim h [ ]
round_goes id p next (holding showing) b h = elim h [ ]
round_goes id p next (holding updating) b h = elim h [ ]

monitor_goes :
    (fuel : ℕ) (id : String) (was_active : Bool) (start_time : ℕ) (g : Phase)
    → Toggles g
    → Along
        (λ g' _. IsDone g')
        (Caught (toggle_failed id))
        g
        (monitor_operation fuel id was_active start_time)
unfolding monitor_operation
monitor_goes zero id b t g h = timed_out_ends id g h
monitor_goes (suc fuel) id b t g h = λ now.
    let c : Phase → Thrown → Type 0 = Caught (toggle_failed id) in
    Along-if (λ g' _. IsDone g') c g (ltb (now - t) max_operation_wait_time) _ (switch_timed_out id)
      (Along-bind _ c g (try_catch (check_once id b) (check_failed id))
        (λ over. if over then ret tt else sleeping poll_interval (monitor_operation fuel id b t))
        (Along-map Over _ c c
          (round_goes id (monitor_operation fuel id b t) λ g' h'. monitor_goes fuel id b t g' h')
          (λ g' e z. z) g (try_catch (check_once id b) (check_failed id))
          (Along-try_catch Over c g (check_once id b) (check_failed id) (
            Along-map Over Over (λ g' e. Toggles g') _ (λ g' a z. z)
              (λ g' e z. check-Caught id g' e z) g (check_once id b) (check_goes id b g h)))))
      (timed_out_ends id g h)

command_goes :
    (id : String) (was_active : Bool)
    → Along
        (λ g' _. IsDone g')
        (Caught (toggle_failed id))
        (holding toggling)
        (toggle_command id was_active)
unfolding toggle_command
command_goes id b (failed e) = toggle-Caught id (holding toggling) e tt
command_goes id b (answered x) =
    let c : Phase → Thrown → Type 0 = Caught (toggle_failed id) in
    Along-read_json (λ g' _. IsDone g') c (holding toggling) x
      (λ d.
        when (not d.success) (throw_error "Diashow konnte nicht umgeschaltet werden")
        >> (date_now >>= λ t. monitor_operation monitor_rounds id b t))
      (λ e. toggle-Caught id (holding toggling) e tt)
      λ d.
        Along-guard (λ g' _. IsDone g') c (holding toggling) (not d.success) _
          (date_now >>= λ t. monitor_operation monitor_rounds id b t)
          (λ e. toggle-Caught id (holding toggling) e tt)
          λ t. monitor_goes monitor_rounds id b t (holding toggling) tt

attempt_goes :
    (id : String) → Along (λ g' _. IsDone g') (Caught (toggle_failed id)) idle (toggle_attempt id)
unfolding toggle_attempt
attempt_goes id (failed e) = toggle-Caught id (holding toggling) e tt
attempt_goes id (answered x) =
    let c : Phase → Thrown → Type 0 = Caught (toggle_failed id) in
    let fails : (e : Thrown) → c (holding toggling) e =
      λ e. toggle-Caught id (holding toggling) e tt in
    Along-read_json (λ g' _. IsDone g') c (holding toggling) x
      (λ d.
        when (not d.success) (throw_error "Status der Diashow konnte nicht geladen werden")
        >> (data_of "active" d >>= λ status. toggle_command id status.active))
      fails
      λ d.
        Along-guard (λ g' _. IsDone g') c (holding toggling) (not d.success) _
          (data_of "active" d >>= λ status. toggle_command id status.active) fails
          (Along-data_of (λ g' _. IsDone g') c (holding toggling) "active" d
            (λ status. toggle_command id status.active) fails
            λ status. command_goes id status.active)

pub toggle-Ends : (id : String) → Ends (try_catch (toggle_attempt id) (toggle_failed id)) idle
toggle-Ends id = Along-try_catch _ _ idle (toggle_attempt id) (toggle_failed id) (attempt_goes id)
