-- ===== src/Thunks/Power/Commands.antt =====
-- How the power commands of piPower.Slice.tsx end.
use shareframe_board.Common.{◌≡◌, refl, false}
use shareframe_board.Async.{pending}
use shareframe_board.Snackbars.Loading.{has_loading}
use shareframe_board.Store.{Action, root_reducer}
use shareframe_board.Thunk.{Prog, Env, World, finished, try_catch, run, apply}
use shareframe_board.Thunk.Toolkit.{Toolkit}
use shareframe_board.Thunks.Notified.{named-has_loading}
use shareframe_board.Thunks.Power.{
  power_failed, restart_attempt, shutdown_attempt, reset_attempt, restart_creator, shutdown_creator,
  factory_reset_creator, restart_pi, shutdown_pi, factory_reset_pi,
}

pub data PowerCommand : Type 0 where
  restart shutdown reset : PowerCommand

abbrev pub power_thunk : Toolkit → PowerCommand → Prog (Unit {0})
power_thunk toolkit restart = restart_pi toolkit
power_thunk toolkit shutdown = shutdown_pi toolkit
power_thunk toolkit reset = factory_reset_pi toolkit

-- Each power command takes its loading notification away in the end and throws nothing, whatever
-- the board answers.
pub power_thunk-has_loading :
    (toolkit : Toolkit) (env : Env) (c : PowerCommand) (w : World)
    → let u = run env (power_thunk toolkit c) w in
      (has_loading (env.fresh_uuid w.uuids) u.0.state.snackbars.loading ≡ false)
      × (u.1 ≡ finished tt)
unfolding restart_pi restart_creator shutdown_pi shutdown_creator factory_reset_pi
    factory_reset_creator run apply root_reducer
power_thunk-has_loading toolkit env restart w =
    rw (toolkit.course env Action.pi_power restart_creator w) (
      named-has_loading env
          (λ id.
            try_catch (restart_attempt id)
              (power_failed "Bilderrahmen konnte nicht neu gestartet werden"))
          (apply (Action.pi_power pending) w),
      refl,
    )
power_thunk-has_loading toolkit env shutdown w =
    rw (toolkit.course env Action.pi_power shutdown_creator w) (
      named-has_loading env
          (λ id.
            try_catch (shutdown_attempt id)
              (power_failed "Bilderrahmen konnte nicht heruntergefahren werden"))
          (apply (Action.pi_power pending) w),
      refl,
    )
power_thunk-has_loading toolkit env reset w =
    rw (toolkit.course env Action.pi_power factory_reset_creator w) (
      named-has_loading env
          (λ id.
            try_catch (reset_attempt id)
              (power_failed "Bilderrahmen konnte nicht zurückgesetzt werden"))
          (apply (Action.pi_power pending) w),
      refl,
    )
