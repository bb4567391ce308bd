-- ===== src/Store.antt =====
-- dashboard-frontend/frontend/src/store/rootReducer.tsx: the state of the dashboard and its reducer.
pub mod Invariant
pub mod Persisted
use shareframe_board.Common.{ℕ}
use shareframe_board.Snackbars.{SnackbarsState, SnackbarsAction, snackbars_reducer}
use shareframe_board.Timers.{TimerState, TimersAction, timers_reducer}
use shareframe_board.SlideshowOperation.{
  SlideshowOperationState, SlideshowOperationAction, slideshow_operation_reducer,
}
use shareframe_board.SlideshowStatus.{
  SlideshowStatusState, SlideshowStatusAction, slideshow_status_reducer,
}
use shareframe_board.SlideshowImages.{
  SlideshowImagesState, SlideshowImagesAction, slideshow_images_reducer,
}
use shareframe_board.Network.{NetworkState, NetworkAction, network_reducer}
use shareframe_board.ConnectionMode.{
  ConnectionModeState, ConnectionModeData, connection_mode_reducer,
}
use shareframe_board.Auth.{AuthState, AuthAction, auth_reducer}
use shareframe_board.LoadingWall.{LoadingWallState, LoadingWallAction, loading_wall_reducer}
use shareframe_board.Navigation.{NavigationState, NavigationAction, navigation_reducer}
use shareframe_board.Dialogs.{DialogsState, DialogsAction, dialogs_reducer, dialogs_on_navigation}
use shareframe_board.Services.{ServicesState, ServicesAction, services_reducer}
use shareframe_board.Updates.{UpdatesState, UpdatesAction, updates_reducer}
use shareframe_board.FrameLogs.{LogsState, LogsAction, frame_logs_reducer}
use shareframe_board.FrameInfo.{
  FrameInfo, FrameInfoState, frame_info_reducer, DisplayStats, DisplayStatsState,
  display_stats_reducer, no_info, no_stats,
}
use shareframe_board.DisplayCustomization.{
  DisplayCustomizationState, DisplayCustomizationAction, display_customization_reducer,
}
use shareframe_board.Updates
use shareframe_board.FrameLogs
use shareframe_board.DisplayCustomization
use shareframe_board.Async.{Stage}
use shareframe_board.Common.{Option}
use shareframe_board.Snackbars
use shareframe_board.Timers
use shareframe_board.SlideshowOperation
use shareframe_board.SlideshowStatus
use shareframe_board.SlideshowImages
use shareframe_board.Network
use shareframe_board.ConnectionMode
use shareframe_board.Auth
use shareframe_board.LoadingWall
use shareframe_board.Navigation
use shareframe_board.Dialogs
use shareframe_board.Services

pub record RootState : Type 0 where
  pub snackbars : SnackbarsState
  pub slideshow_operation : SlideshowOperationState
  pub slideshow_status : SlideshowStatusState
  pub timers : TimerState
  pub network : NetworkState
  pub connection_mode : ConnectionModeState
  pub auth : AuthState
  pub loading_wall : LoadingWallState
  pub navigation : NavigationState
  pub dialogs : DialogsState
  pub slideshow_images : SlideshowImagesState
  pub services : ServicesState
  pub frame_info : FrameInfoState
  pub display_stats : DisplayStatsState
  pub updates : UpdatesState
  pub frame_logs : LogsState
  pub display_customization : DisplayCustomizationState

abbrev pub initial_root : ℕ → RootState
initial_root now = record {
  snackbars = Snackbars.initial_state;
  slideshow_operation = SlideshowOperation.initial_state;
  slideshow_status = SlideshowStatus.initial_state;
  timers = Timers.initial_state now;
  network = Network.initial_state;
  connection_mode = ConnectionMode.initial_state;
  auth = Auth.initial_state;
  loading_wall = LoadingWall.initial_state;
  navigation = Navigation.initial_state;
  dialogs = Dialogs.initial_state;
  slideshow_images = SlideshowImages.initial_state;
  services = Services.initial_state;
  frame_info = no_info;
  display_stats = no_stats;
  updates = Updates.initial_state;
  frame_logs = FrameLogs.initial_state;
  display_customization = DisplayCustomization.initial_state;
}

pub data Action : Type 0 where
  snackbars : SnackbarsAction → Action
  slideshow_operation : SlideshowOperationAction → Action
  slideshow_status : SlideshowStatusAction → Action
  timers : TimersAction → Action
  network : NetworkAction → Action
  connection_mode : Stage (Option ConnectionModeData) → Action
  auth : AuthAction → Action
  loading_wall : LoadingWallAction → Action
  navigation : NavigationAction → Action
  dialogs : DialogsAction → Action
  slideshow_images : SlideshowImagesAction → Action
  services : ServicesAction → Action
  frame_info : Stage FrameInfo → Action
  display_stats : Stage DisplayStats → Action
  updates : UpdatesAction → Action
  frame_logs : LogsAction → Action
  display_customization : DisplayCustomizationAction → Action
  pi_power : Stage (Unit {0}) → Action

-- Each slice reduces its own actions; the dialogs also listen to the navigation. The slice of the
-- power commands, piPower, has no state.
unfoldable pub root_reducer : ℕ → RootState → Action → RootState
root_reducer now s (Action.snackbars a) = record s { snackbars = snackbars_reducer s.snackbars a }
root_reducer now s (Action.slideshow_operation a) = record s {
  slideshow_operation = slideshow_operation_reducer now s.slideshow_operation a;
}
root_reducer now s (Action.slideshow_status a) = record s {
  slideshow_status = slideshow_status_reducer now s.slideshow_status a;
}
root_reducer now s (Action.timers a) = record s { timers = timers_reducer now s.timers a }
root_reducer now s (Action.network a) = record s { network = network_reducer now s.network a }
root_reducer now s (Action.connection_mode a) = record s {
  connection_mode = connection_mode_reducer now s.connection_mode a;
}
root_reducer now s (Action.auth a) = record s { auth = auth_reducer s.auth a }
root_reducer now s (Action.loading_wall a) = record s {
  loading_wall = loading_wall_reducer now s.loading_wall a;
}
root_reducer now s (Action.navigation a) = record s {
  navigation = navigation_reducer s.navigation a;
  dialogs = dialogs_on_navigation s.dialogs a;
}
root_reducer now s (Action.dialogs a) = record s { dialogs = dialogs_reducer s.dialogs a }
root_reducer now s (Action.slideshow_images a) = record s {
  slideshow_images = slideshow_images_reducer now s.slideshow_images a;
}
root_reducer now s (Action.services a) = record s { services = services_reducer s.services a }
root_reducer now s (Action.frame_info a) = record s {
  frame_info = frame_info_reducer s.frame_info a;
}
root_reducer now s (Action.display_stats a) = record s {
  display_stats = display_stats_reducer s.display_stats a;
}
root_reducer now s (Action.updates a) = record s { updates = updates_reducer s.updates a }
root_reducer now s (Action.frame_logs a) = record s {
  frame_logs = frame_logs_reducer now s.frame_logs a;
}
root_reducer now s (Action.display_customization a) = record s {
  display_customization = display_customization_reducer s.display_customization a;
}
root_reducer now s (Action.pi_power a) = s
