-- ===== src/Dialogs.antt =====
-- dashboard-frontend/frontend/src/store/dialogs/dialogs.Slice.tsx: which dialogs are open.
pub mod Laws
use shareframe_board.Common.{Bool, true, false, String}
use shareframe_board.Navigation.{
  NavigationAction, sidebar_opened, sidebar_closed, advanced_mode_toggled, route_changed,
  current_path_set,
}

pub record Dialog : Type 0 where
  pub is_open : Bool

pub record ForgetDialog : Type 0 where
  pub is_open : Bool
  pub ssid : String

pub record GeneralDialogs : Type 0 where
  pub shutdown : Dialog
  pub restart : Dialog
  pub change_password : Dialog
  pub factory_reset : Dialog

pub record UpdatesDialogs : Type 0 where
  pub confirm_update : Dialog

pub record NetworkDialogs : Type 0 where
  pub add_network : Dialog
  pub forget_network : ForgetDialog
  pub change_ap_password : Dialog
  pub connect : Dialog

pub record DialogsState : Type 0 where
  pub general : GeneralDialogs
  pub updates : UpdatesDialogs
  pub network : NetworkDialogs

abbrev pub opened : Dialog
opened = record { is_open = true }

abbrev pub closed : Dialog
closed = record { is_open = false }

abbrev pub initial_state : DialogsState
initial_state = record {
  general = record {
    shutdown = closed;
    restart = closed;
    change_password = closed;
    factory_reset = closed;
  };
  updates = record { confirm_update = closed };
  network = record {
    add_network = closed;
    forget_network = record { is_open = false; ssid = "" };
    change_ap_password = closed;
    connect = closed;
  };
}

pub data DialogsAction : Type 0 where
  shutdown_dialog_opened shutdown_dialog_closed : DialogsAction
  restart_dialog_opened restart_dialog_closed : DialogsAction
  updates_confirm_update_dialog_opened updates_confirm_update_dialog_closed : DialogsAction
  network_add_network_dialog_opened network_add_network_dialog_closed : DialogsAction
  network_forget_network_dialog_opened : String → DialogsAction
  network_forget_network_dialog_closed : DialogsAction
  general_change_password_dialog_opened general_change_password_dialog_closed : DialogsAction
  general_factory_reset_dialog_opened general_factory_reset_dialog_closed : DialogsAction
  network_change_ap_password_dialog_opened network_change_ap_password_dialog_closed : DialogsAction
  network_connect_dialog_opened network_connect_dialog_closed : DialogsAction

unfoldable pub dialogs_reducer : DialogsState → DialogsAction → DialogsState
dialogs_reducer s shutdown_dialog_opened = record s {
  general = record (s.general) { shutdown = opened };
}
dialogs_reducer s shutdown_dialog_closed = record s {
  general = record (s.general) { shutdown = closed };
}
dialogs_reducer s restart_dialog_opened = record s {
  general = record (s.general) { restart = opened };
}
dialogs_reducer s restart_dialog_closed = record s {
  general = record (s.general) { restart = closed };
}
dialogs_reducer s updates_confirm_update_dialog_opened = record s {
  updates = record (s.updates) { confirm_update = opened };
}
dialogs_reducer s updates_confirm_update_dialog_closed = record s {
  updates = record (s.updates) { confirm_update = closed };
}
dialogs_reducer s network_add_network_dialog_opened = record s {
  network = record (s.network) { add_network = opened };
}
dialogs_reducer s network_add_network_dialog_closed = record s {
  network = record (s.network) { add_network = closed };
}
dialogs_reducer s (network_forget_network_dialog_opened name) = record s {
  network = record (s.network) { forget_network = record { is_open = true; ssid = name } };
}
dialogs_reducer s network_forget_network_dialog_closed = record s {
  network = record (s.network) { forget_network = record { is_open = false; ssid = "" } };
}
dialogs_reducer s general_change_password_dialog_opened = record s {
  general = record (s.general) { change_password = opened };
}
dialogs_reducer s general_change_password_dialog_closed = record s {
  general = record (s.general) { change_password = closed };
}
dialogs_reducer s general_factory_reset_dialog_opened = record s {
  general = record (s.general) { factory_reset = opened };
}
dialogs_reducer s general_factory_reset_dialog_closed = record s {
  general = record (s.general) { factory_reset = closed };
}
dialogs_reducer s network_change_ap_password_dialog_opened = record s {
  network = record (s.network) { change_ap_password = opened };
}
dialogs_reducer s network_change_ap_password_dialog_closed = record s {
  network = record (s.network) { change_ap_password = closed };
}
dialogs_reducer s network_connect_dialog_opened = record s {
  network = record (s.network) { connect = opened };
}
dialogs_reducer s network_connect_dialog_closed = record s {
  network = record (s.network) { connect = closed };
}

-- The extra reducer: a change of the route closes every dialog.
unfoldable pub dialogs_on_navigation : DialogsState → NavigationAction → DialogsState
dialogs_on_navigation s route_changed = initial_state
dialogs_on_navigation s _ = s
