-- ===== src/Snackbars.antt =====
-- dashboard-frontend/frontend/src/store/snackbars/snackbars.Slice.tsx: the notifications, as state
-- and reducer. `List` holds an array with its first item at the head; `shift` drops the head.
pub mod Alerts
pub mod Loading
use shareframe_board.Common.{
  ℕ, ◌++◌, Bool, not, Option, none, some, List, [], ◌∷◌, String, str_eq, leb, length, drop, filter,
  if◌then◌else◌,
}

-- `AlertColor` of the component library.
pub data AlertColor : Type 0 where
  success info warning error : AlertColor

pub record SnackbarItem : Type 0 where
  pub id : String
  pub message : String
  pub auto_hide_duration : Option ℕ

pub record AlertSnackbarItem : Type 0 where
  pub item : SnackbarItem
  pub open item use *
  pub severity : AlertColor

pub record SnackbarsState : Type 0 where
  pub alerts : List AlertSnackbarItem
  pub loading : List SnackbarItem

abbrev pub initial_state : SnackbarsState
initial_state = record { alerts = []; loading = [] }

abbrev pub max_alert_snackbars : ℕ
max_alert_snackbars = 5

pub data SnackbarsAction : Type 0 where
  alert_snackbar_added : AlertSnackbarItem → SnackbarsAction
  alert_snackbar_removed : String → SnackbarsAction
  loading_snackbar_added : SnackbarItem → SnackbarsAction
  loading_snackbar_removed : String → SnackbarsAction
  clear_all_snackbars : SnackbarsAction
  clear_all_loading_snackbars : SnackbarsAction

unfoldable pub push_alert : AlertSnackbarItem → List AlertSnackbarItem → List AlertSnackbarItem
push_alert a alerts =
    (if leb max_alert_snackbars (length alerts) then drop 1 alerts else alerts) ++ a ∷ []

unfoldable pub without_alert : String → List AlertSnackbarItem → List AlertSnackbarItem
without_alert id = filter λ s. not (str_eq s.id id)

unfoldable pub without_loading : String → List SnackbarItem → List SnackbarItem
without_loading id = filter λ s. not (str_eq s.id id)

unfoldable pub snackbars_reducer : SnackbarsState → SnackbarsAction → SnackbarsState
snackbars_reducer s (alert_snackbar_added a) = record s { alerts = push_alert a s.alerts }
snackbars_reducer s (alert_snackbar_removed id) = record s { alerts = without_alert id s.alerts }
snackbars_reducer s (loading_snackbar_added i) = record s { loading = s.loading ++ i ∷ [] }
snackbars_reducer s (loading_snackbar_removed id) = record s {
  loading = without_loading id s.loading;
}
snackbars_reducer s clear_all_snackbars = record s { alerts = []; loading = [] }
snackbars_reducer s clear_all_loading_snackbars = record s { loading = [] }

-- The action creators; the callers of this development leave `autoHideDuration` out.
abbrev pub add_alert_snackbar : String → String → AlertColor → SnackbarsAction
add_alert_snackbar id message severity = alert_snackbar_added (record {
  item = record { id = id; message = message; auto_hide_duration = none };
  severity = severity;
})

abbrev pub remove_alert_snackbar : String → SnackbarsAction
remove_alert_snackbar id = alert_snackbar_removed id

abbrev pub add_loading_snackbar : String → String → SnackbarsAction
add_loading_snackbar id message =
    loading_snackbar_added (record { id = id; message = message; auto_hide_duration = none })

abbrev pub remove_loading_snackbar : String → SnackbarsAction
remove_loading_snackbar id = loading_snackbar_removed id
