-- ===== src/Thunks/Slideshow/Monitor.antt =====
-- The loop of `toggleSlideshowThunk` that watches the board: its fuel is enough.
use shareframe_board.Common.{
  ℕ, zero, suc, ◌+◌, ◌-◌, ◌*◌, ◌≤◌, ◌≡◌, refl, sym, ap, ◌∙◌, Bool, true, false, String, ltb, arith,
  Bool-cases, inl, inr, ge→ltb, if◌then◌else◌,
}
use shareframe_board.Thunk.{
  Prog, ret, try_catch, sleeping, Env, World, Ending, finished, threw, run, elapse,
}
use shareframe_board.Thunk.Laws.{run-bind, continue}
use shareframe_board.Thunk.Clock.{clock-run}
use shareframe_board.Thunks.Slideshow.Toggle.{
  monitor_operation, check_once, check_failed, max_operation_wait_time, poll_interval,
  switch_timed_out, monitor_rounds,
}

add_suc : (m n : ℕ) → suc m + n ≡ suc (m + n)
add_suc m n = omega arith

module _ (env : Env) (id : String) (was_active : Bool) (start_time : ℕ) where
  abbrev round : Prog Bool
  round = try_catch (check_once id was_active) (check_failed id)

  abbrev next : ℕ → Bool → Prog (Unit {0})
  next fuel over =
      if over
      then ret tt
      else sleeping poll_interval (monitor_operation fuel id was_active start_time)

  -- one round of the loop
  monitor_early :
      (fuel : ℕ) (w : World)
      → ltb (w.clock - start_time) max_operation_wait_time ≡ true
      → run env (monitor_operation (suc fuel) id was_active start_time) w
        ≡ continue env (next fuel) (run env round w)
  unfolding run monitor_operation
  monitor_early fuel w early = rw (early, run) (run-bind env round (next fuel) w)

  monitor_late :
      (fuel : ℕ) (w : World)
      → ltb (w.clock - start_time) max_operation_wait_time ≡ false
      → run env (monitor_operation fuel id was_active start_time) w
        ≡ run env (switch_timed_out id) w
  unfolding run monitor_operation
  monitor_late zero w late = refl
  monitor_late (suc fuel) w late = rw (late, run)

  next_same :
      (m n c : ℕ) (r : World × Ending Bool)
      → ((v : World)
          → c + poll_interval ≤ v.clock
          → run env (monitor_operation m id was_active start_time) v
            ≡ run env (monitor_operation n id was_active start_time) v)
      → c ≤ r.0.clock
      → continue env (next m) r ≡ continue env (next n) r
  unfolding run elapse
  next_same m n c (v, threw e) same le = refl
  next_same m n c (v, finished true) same le = refl
  next_same m n c (v, finished false) same le =
      same (elapse env (poll_interval + env.latency v.waits) v) (omega arith)

  -- Rounds beyond those that the ten minutes have room for change nothing: the loop ends by its
  -- test or by the board's answer, and never for want of fuel.
  pub monitor_enough :
      (fuel extra : ℕ) (w : World)
      → max_operation_wait_time ≤ poll_interval * fuel + (w.clock - start_time)
      → start_time ≤ w.clock
      → run env (monitor_operation (fuel + extra) id was_active start_time) w
        ≡ run env (monitor_operation fuel id was_active start_time) w
  monitor_enough zero extra w room from =
      monitor_late _ w (ge→ltb _ _ (omega arith))
      ∙ sym (monitor_late zero w (ge→ltb _ _ (omega arith)))
  monitor_enough (suc fuel) extra w room from =
      elim (Bool-cases (ltb (w.clock - start_time) max_operation_wait_time)) [
        | inr late ↦ monitor_late _ w late ∙ sym (monitor_late _ w late)
        | inl early ↦
            ap (λ n. run env (monitor_operation n id was_active start_time) w) (add_suc fuel extra)
            ∙ monitor_early (fuel + extra) w early
            ∙ next_same (fuel + extra) fuel w.clock (run env round w)
                (λ v le. monitor_enough fuel extra v (omega arith) (omega arith))
                (clock-run env round w)
            ∙ sym (monitor_early fuel w early)
      ]

-- The 300 rounds of the model are as many as the loop of the source ever makes: more change nothing,
-- whatever the board answers, however long each answer takes.
pub monitor_operation_rounds :
    (env : Env) (id : String) (was_active : Bool) (extra : ℕ) (w : World)
    → run env (monitor_operation (monitor_rounds + extra) id was_active w.clock) w
      ≡ run env (monitor_operation monitor_rounds id was_active w.clock) w
monitor_operation_rounds env id was_active extra w =
    monitor_enough env id was_active w.clock monitor_rounds extra w (omega arith) (omega arith)
