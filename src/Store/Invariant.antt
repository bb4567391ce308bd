-- ===== src/Store/Invariant.antt =====
-- What holds of the whole state of rootReducer.tsx at every moment, whatever runs.
use shareframe_board.Common.{ℕ, ◌≤◌, length}
use shareframe_board.Snackbars.{max_alert_snackbars}
use shareframe_board.Snackbars.Alerts.{snackbars_reducer-bounded}
use shareframe_board.Timers.Dict.{HasDistinctKeys}
use shareframe_board.Timers.Invariant.{timers_reducer-HasDistinctKeys}
use shareframe_board.ConnectionMode.Laws.{IsDated, connection_mode_reducer-IsDated}
use shareframe_board.Dialogs.Laws.{IsTidy, dialogs_reducer-IsTidy, dialogs_on_navigation-IsTidy}
use shareframe_board.Store.{RootState, Action, root_reducer}

-- At most five alerts, each timer under its own key, the two accounts of the last failure together,
-- and no name in a closed dialog.
pub record IsCoherent (s : RootState) : Type 0 where
  pub bounded : length s.snackbars.alerts ≤ max_alert_snackbars
  pub distinct : HasDistinctKeys s.timers.timers
  pub dated : IsDated s.connection_mode
  pub tidy : IsTidy s.dialogs

pub root_reducer-IsCoherent :
    (now : ℕ) (s : RootState) (a : Action) → IsCoherent s → IsCoherent (root_reducer now s a)
unfolding root_reducer
root_reducer-IsCoherent now s (Action.snackbars a) c = record {
  bounded = snackbars_reducer-bounded s.snackbars a c.bounded;
  distinct = c.distinct;
  dated = c.dated;
  tidy = c.tidy;
}
root_reducer-IsCoherent now s (Action.timers a) c = record {
  bounded = c.bounded;
  distinct = timers_reducer-HasDistinctKeys now s.timers a c.distinct;
  dated = c.dated;
  tidy = c.tidy;
}
root_reducer-IsCoherent now s (Action.connection_mode a) c = record {
  bounded = c.bounded;
  distinct = c.distinct;
  dated = connection_mode_reducer-IsDated now s.connection_mode a c.dated;
  tidy = c.tidy;
}
root_reducer-IsCoherent now s (Action.navigation a) c = record {
  bounded = c.bounded;
  distinct = c.distinct;
  dated = c.dated;
  tidy = dialogs_on_navigation-IsTidy s.dialogs a c.tidy;
}
root_reducer-IsCoherent now s (Action.dialogs a) c = record {
  bounded = c.bounded;
  distinct = c.distinct;
  dated = c.dated;
  tidy = dialogs_reducer-IsTidy s.dialogs a c.tidy;
}
root_reducer-IsCoherent now s a c = record {
  bounded = c.bounded;
  distinct = c.distinct;
  dated = c.dated;
  tidy = c.tidy;
}
