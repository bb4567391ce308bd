-- ===== src/LoadingWall.antt =====
-- dashboard-frontend/frontend/src/store/loadingWall/loadingWall.Slice.tsx: the screen that covers
-- the dashboard while the board restarts. `now` stands for `Date.now()`.
use shareframe_board.Common.{ℕ, ◌+◌, ◌*◌, Bool, true, false, Option, none, some, String}

pub record LoadingWallState : Type 0 where
  pub is_loading_wall_visible : Bool
  pub message : String
  pub hide_after : Option ℕ

abbrev pub initial_state : LoadingWallState
initial_state = record { is_loading_wall_visible = false; message = ""; hide_after = none }

pub data LoadingWallAction : Type 0 where
  loading_wall_visible : String → LoadingWallAction
  loading_wall_hidden : LoadingWallAction

unfoldable pub loading_wall_reducer : ℕ → LoadingWallState → LoadingWallAction → LoadingWallState
loading_wall_reducer now s (loading_wall_visible message) = record s {
  is_loading_wall_visible = true;
  message = message;
  hide_after = some (now + 3 * 60 * 1000);
}
loading_wall_reducer now s loading_wall_hidden = record s {
  is_loading_wall_visible = false;
  message = "";
  hide_after = none;
}
