-- ===== src/Navigation.antt =====
-- dashboard-frontend/frontend/src/store/navigation/navigation.Slice.tsx: the phone menu, the path
-- and the advanced mode.
use shareframe_board.Common.{Bool, true, false, not, String}

pub record Toggle : Type 0 where
  pub open_now : Bool

pub record NavigationState : Type 0 where
  pub sidebar : Toggle
  pub current_path : String
  pub advanced_mode : Bool

abbrev pub initial_state : NavigationState
initial_state = record {
  sidebar = record { open_now = false };
  current_path = "";
  advanced_mode = false;
}

pub data NavigationAction : Type 0 where
  sidebar_opened sidebar_closed advanced_mode_toggled route_changed : NavigationAction
  current_path_set : String → NavigationAction

unfoldable pub navigation_reducer : NavigationState → NavigationAction → NavigationState
navigation_reducer s sidebar_opened = record s { sidebar = record { open_now = true } }
navigation_reducer s sidebar_closed = record s { sidebar = record { open_now = false } }
navigation_reducer s (current_path_set path) = record s { current_path = path }
navigation_reducer s advanced_mode_toggled = record s { advanced_mode = not s.advanced_mode }
navigation_reducer s route_changed = s
