-- ===== src/Network.antt =====
-- dashboard-frontend/frontend/src/store/network/network.Slice.tsx: the saved networks and the
-- current connection, as state and reducer. The thunks of the file are in Thunks/Network.
use shareframe_board.Common.{ℕ, Bool, true, false, Option, none, some, List, [], String}
use shareframe_board.Async.{Stage, pending, fulfilled, rejected}

pub record NetworkCredentials : Type 0 where
  pub ssid : String
  pub password : String

pub record NetworkState : Type 0 where
  pub current_connection : String
  pub saved_networks : List String
  pub loading : Bool
  pub error : Option String
  pub connect_requested_at : Option ℕ

abbrev pub initial_state : NetworkState
initial_state = record {
  current_connection = "Wird geladen …";
  saved_networks = [];
  loading = false;
  error = none;
  connect_requested_at = none;
}

pub record NetworkData : Type 0 where
  pub current_connection : String
  pub saved_networks : List String

pub data NetworkAction : Type 0 where
  fetch_network_data : Stage NetworkData → NetworkAction
  add_network forget_network : Stage String → NetworkAction
  connect_to_saved_networks change_ap_password : Stage Bool → NetworkAction

unfoldable pub network_reducer : ℕ → NetworkState → NetworkAction → NetworkState
network_reducer now s (fetch_network_data pending) = record s { loading = true; error = none }
network_reducer now s (fetch_network_data (fulfilled d)) = record s {
  loading = false;
  current_connection = d.current_connection;
  saved_networks = d.saved_networks;
}
network_reducer now s (fetch_network_data (rejected r)) = record s {
  loading = false;
  error = r.payload;
}
network_reducer now s (add_network pending) = record s { loading = true; error = none }
network_reducer now s (add_network (fulfilled _)) = record s { loading = false }
network_reducer now s (add_network (rejected r)) = record s { loading = false; error = r.payload }
network_reducer now s (connect_to_saved_networks (fulfilled _)) = record s {
  connect_requested_at = some now;
}
network_reducer now s (connect_to_saved_networks _) = s
network_reducer now s (forget_network pending) = record s { loading = true; error = none }
network_reducer now s (forget_network (fulfilled _)) = record s { loading = false }
network_reducer now s (forget_network (rejected r)) = record s {
  loading = false;
  error = r.payload;
}
network_reducer now s (change_ap_password _) = s
