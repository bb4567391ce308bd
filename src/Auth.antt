-- ===== src/Auth.antt =====
-- dashboard-frontend/frontend/src/store/auth/auth.Slice.tsx: the state of the session and its
-- reducer. The thunks of the file are in Thunks/Auth. A null and an undefined error are both `none`.
use shareframe_board.Common.{Bool, true, false, Option, none, some, String}
use shareframe_board.Common.Text.{text_or}
use shareframe_board.Async.{Stage, pending, fulfilled, rejected}

pub record AuthState : Type 0 where
  pub is_authenticated : Bool
  pub is_loading : Bool
  pub error : Option String

abbrev pub initial_state : AuthState
initial_state = record { is_authenticated = false; is_loading = false; error = none }

pub data AuthAction : Type 0 where
  check_auth_status : Stage Bool → AuthAction
  login logout : Stage Bool → AuthAction
  change_password : Stage Bool → AuthAction
  reset_auth_state : AuthAction

unfoldable pub auth_reducer : AuthState → AuthAction → AuthState
auth_reducer s reset_auth_state = record s {
  is_authenticated = false;
  is_loading = false;
  error = none;
}
auth_reducer s (check_auth_status pending) = record s { is_loading = true }
auth_reducer s (check_auth_status (fulfilled b)) = record s {
  is_authenticated = b;
  is_loading = false;
  error = none;
}
auth_reducer s (check_auth_status (rejected r)) = record s {
  is_authenticated = false;
  is_loading = false;
  error = some (text_or r.error_message "Authentication check failed");
}
auth_reducer s (login pending) = record s { is_loading = true; error = none }
auth_reducer s (login (fulfilled _)) = record s {
  is_authenticated = true;
  is_loading = false;
  error = none;
}
auth_reducer s (login (rejected r)) = record s {
  is_authenticated = false;
  is_loading = false;
  error = r.payload;
}
auth_reducer s (logout pending) = record s { is_loading = true }
auth_reducer s (logout (fulfilled _)) = record s {
  is_authenticated = false;
  is_loading = false;
  error = none;
}
auth_reducer s (logout (rejected r)) = record s {
  is_loading = false;
  error = some (text_or r.error_message "Logout failed");
}
auth_reducer s (change_password _) = s
