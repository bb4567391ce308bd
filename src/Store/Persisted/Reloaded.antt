-- ===== src/Store/Persisted/Reloaded.antt =====
-- What a reload of the page leaves of the dashboard, by the configuration in store/index.ts.
use shareframe_board.Common.{ℕ, ◌≡◌, ◌∙◌, ap, Bool, true, ◌&&◌}
use shareframe_board.SlideshowOperation.{is_busy}
use shareframe_board.Store.{initial_root}
use shareframe_board.Store.Persisted.{
  Persistence, close_phone_menu, slideshow_operation, dialogs, navigation,
}
use shareframe_board.Dialogs
use shareframe_board.Thunk.{Env, World, finished, run}
use shareframe_board.Thunks.Slideshow.Operations.{Operation, thunk_of}
use shareframe_board.Thunks.Slideshow.Exclusion.{thunk_of_busy}

-- The dashboard after a reload at the time `now`: no thunk runs, and the state is rehydrated.
abbrev pub reloaded : Persistence → Bool → ℕ → World → World
reloaded persistence is_wide now w = record w {
  state = persistence.rehydrate is_wide w.state (initial_root now);
  clock = now;
}

module _ (persistence : Persistence) (is_wide : Bool) (now : ℕ) (w : World) where
  -- After a reload no dialog is open, and the sidebar is open only on a wide screen.
  pub reloaded-open :
      let s = (reloaded persistence is_wide now w).state in
      (s.dialogs ≡ Dialogs.initial_state)
      × (s.navigation.sidebar.open_now ≡ (w.state.navigation.sidebar.open_now && is_wide))
  unfolding close_phone_menu
  reloaded-open =
      let m = persistence.merges is_wide w.state (initial_root now) in
      (m dialogs, ap (λ n. n.sidebar.open_now) (m navigation))

  -- An operation on the slideshow that a reload cuts off still counts as running: afterwards every
  -- operation is turned away, for no thunk is left that would lower its flag.
  pub reloaded-thunk_of :
      (env : Env) (o : Operation)
      → is_busy w.state.slideshow_operation ≡ true
      → let v = reloaded persistence is_wide now w in run env (thunk_of o) v ≡ (v, finished tt)
  reloaded-thunk_of env o h =
      let m = persistence.merges is_wide w.state (initial_root now) slideshow_operation in
      thunk_of_busy env o (reloaded persistence is_wide now w) (ap is_busy m ∙ h)
