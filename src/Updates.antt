-- ===== src/Updates.antt =====
-- dashboard-frontend/frontend/src/store/updates/updates.Slice.tsx: the updates of the board, as state
-- and reducer. The thunks of the file are in Thunks/Updates.
use shareframe_board.Common.{Bool, true, false, Option, none, some, List, [], String}
use shareframe_board.Common.Int.{ℤ}
use shareframe_board.Async.{Stage, pending, fulfilled, rejected}

pub record Release : Type 0 where
  pub version : String
  pub release_notes : String
  pub release_date : String
  pub criticality : String
  pub is_newer : Bool

pub record UpdateHistoryEntry : Type 0 where
  pub timestamp : String
  pub from_version : String
  pub to_version : String
  pub result : String
  pub error : String

pub record UpdateStatus : Type 0 where
  pub phase : String
  pub progress : ℤ
  pub error : String
  pub current_version : String
  pub target_version : String
  pub booted_slot : String
  pub committed_slot : String
  pub pending_slot : String
  pub committed : Bool
  pub last_result : Option UpdateHistoryEntry

pub record UpdatesState : Type 0 where
  pub latest_release : Option Release
  pub update_status : Option UpdateStatus
  pub history : List UpdateHistoryEntry
  pub history_failed : Bool
  pub loading : Bool

abbrev pub initial_state : UpdatesState
initial_state = record {
  latest_release = none;
  update_status = none;
  history = [];
  history_failed = false;
  loading = false;
}

-- No case of the reducer listens to `performUpdate`.
pub data UpdatesAction : Type 0 where
  fetch_latest_release : Stage (Option Release) → UpdatesAction
  perform_update : Stage (Unit {0}) → UpdatesAction
  fetch_update_status : Stage UpdateStatus → UpdatesAction
  fetch_update_history : Stage (List UpdateHistoryEntry) → UpdatesAction

unfoldable pub updates_reducer : UpdatesState → UpdatesAction → UpdatesState
updates_reducer s (fetch_latest_release pending) = record s { loading = true }
updates_reducer s (fetch_latest_release (fulfilled release)) = record s {
  latest_release = release;
  loading = false;
}
updates_reducer s (fetch_latest_release (rejected r)) = record s { loading = false }
updates_reducer s (perform_update stage) = s
updates_reducer s (fetch_update_status (fulfilled status)) = record s {
  update_status = some status;
}
updates_reducer s (fetch_update_status stage) = s
updates_reducer s (fetch_update_history pending) = record s { history_failed = false }
updates_reducer s (fetch_update_history (fulfilled entries)) = record s { history = entries }
updates_reducer s (fetch_update_history (rejected r)) = record s { history_failed = true }
