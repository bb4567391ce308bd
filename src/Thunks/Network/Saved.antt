-- ===== src/Thunks/Network/Saved.antt =====
-- What the thunks of network.Slice.tsx leave of the networks, for every answer of the board.
use shareframe_board.Common.{
  suc, ◌≡◌, Bool, true, false, ◌&&◌, ◌||◌, not, Option, none, some, List, ◌∷◌, String, is_some,
  arith, if◌then◌else◌,
}
use shareframe_board.Async.{pending}
use shareframe_board.Network.{
  NetworkCredentials, NetworkData, NetworkState, fetch_network_data, add_network, forget_network,
  connect_to_saved_networks, network_reducer,
}
use shareframe_board.Board.{
  Endpoint, Reply, failed, answered, malformed, json, credentials_body, ssid_body, empty_body,
}
use shareframe_board.Store.{Action, root_reducer}
use shareframe_board.Thunk.{
  Env, World, finished, run, apply, send, begin, delivered, get_from, post_to,
  call_fetch_network_data,
}
use shareframe_board.Thunk.Slices.{network_after, reduce_all-network}
use shareframe_board.Thunk.Waiting.{until_wait}
use shareframe_board.Snackbars.{success}
use shareframe_board.Thunks.Slideshow.Common.{alert}
use shareframe_board.Thunk.Toolkit.{Toolkit}
use shareframe_board.Thunks.Auth.Session.{granted}
use shareframe_board.Thunks.Network.{
  saved_text, fetch_creator, fetch_attempt, fetch_failed, add_creator, add_attempt, network_failed,
  is_incomplete, forget_creator, forget_attempt, connect_creator, connect_attempt,
  fetch_network_data_thunk, add_network_thunk, forget_network_thunk,
  connect_to_saved_networks_thunk,
}

-- What a reply carries, if it is a success with data.
abbrev pub carried : {D : Type 0} → Reply D → Option D
carried (failed e) = none
carried (answered response) = elim response.body [
  | malformed e ↦ none
  | json payload ↦ if payload.success then payload.content else none
]

-- The networks by the two answers of the board.
abbrev pub networks_of : Reply String → Reply (List String) → Option NetworkData
networks_of r q = elim (carried r) [
  | none ↦ none
  | some name ↦ elim (carried q) [
    | none ↦ none
    | some saved ↦ some (record { current_connection = name; saved_networks = saved })
  ]
]

-- The state shows the networks, or an error.
abbrev pub IsShown : Option NetworkData → NetworkState → Type 0
IsShown none s = is_some s.error ≡ true
IsShown (some d) s =
    (s.current_connection ≡ d.current_connection) × (s.saved_networks ≡ d.saved_networks)

-- A fetch of the networks shows what the board's two answers carry, if both do, and an error
-- otherwise; in both cases nothing loads any more and nothing is thrown.
pub fetch_network_data_thunk-networks_of :
    (toolkit : Toolkit) (env : Env) (w : World)
    → let u = run env (fetch_network_data_thunk toolkit) w in
      let s = u.0.state.network in
      let found =
        networks_of
          (delivered env (get_from Endpoint.connection_status) w.waits)
          (delivered env (get_from Endpoint.connection_saved_networks) (suc w.waits)) in
      (s.loading ≡ false) × (u.1 ≡ finished tt) × IsShown found s
unfolding fetch_network_data_thunk fetch_creator fetch_attempt fetch_failed run apply send
    root_reducer network_reducer
fetch_network_data_thunk-networks_of toolkit env w =
    rw (toolkit.course env (λ x. Action.network (fetch_network_data x)) fetch_creator w)
      (ground arith)

-- The error in the end: what was there before, if all went well, and otherwise some error.
abbrev pub IsErrorBy : Bool → Option String → Option String → Type 0
IsErrorBy true before e = e ≡ before
IsErrorBy false before e = is_some e ≡ true

-- A network is added by one request, unless its name or its password is empty, when none is sent.
-- The list of networks is fetched again exactly if the board grants the request. If it grants none,
-- an error is set; if it does, the thunk leaves the error that was there when the answer came, after
-- what the fetch does at once. `loading` is down in the end, whether or not that fetch is under way.
pub add_network_thunk-granted :
    (toolkit : Toolkit) (env : Env) (credentials : NetworkCredentials) (w : World)
    → let begun = apply (Action.network (add_network pending)) w in
      let u = (run env (add_network_thunk toolkit credentials) w).0 in
      let r = post_to Endpoint.connection_connect (credentials_body credentials) in
      let v = send env r (until_wait env (add_creator credentials) begun) in
      let sent = not (is_incomplete credentials) in
      let ok = sent && granted (delivered env r w.waits) in
      let before = network_after v.clock v.state.network (env.on_start call_fetch_network_data) in
      (u.requests ≡ (if sent then r ∷ w.requests else w.requests))
      × (u.calls ≡ (if ok then call_fetch_network_data ∷ w.calls else w.calls))
      × (u.state.network.loading ≡ false)
      × IsErrorBy ok before.error u.state.network.error
unfolding add_network_thunk add_creator add_attempt network_failed run apply send begin until_wait
    root_reducer network_reducer
add_network_thunk-granted toolkit env credentials w =
    let begun = apply (Action.network (add_network pending)) w in
    let r = post_to Endpoint.connection_connect (credentials_body credentials) in
    let v = send env r (until_wait env (add_creator credentials) begun) in
    let told = (run env (alert (saved_text v.state.connection_mode.mode) success) v).0 in
    rw (toolkit.course env (λ x. Action.network (add_network x)) (add_creator credentials) w) (
      ground arith,
      ground arith,
      ground arith,
      ground
          (arith, reduce_all-network told.clock told.state (env.on_start call_fetch_network_data)),
    )

-- A network is forgotten by one request; the list of networks is fetched again exactly if the board
-- grants it.
pub forget_network_thunk-granted :
    (toolkit : Toolkit) (env : Env) (ssid : String) (w : World)
    → let u = (run env (forget_network_thunk toolkit ssid) w).0 in
      let r = post_to Endpoint.connection_forget (ssid_body ssid) in
      let ok = granted (delivered env r w.waits) in
      (u.requests ≡ r ∷ w.requests)
      × (u.calls ≡ (if ok then call_fetch_network_data ∷ w.calls else w.calls))
      × (u.state.network.loading ≡ false)
      × ((ok || is_some u.state.network.error) ≡ true)
unfolding forget_network_thunk forget_creator forget_attempt network_failed run apply send begin
    root_reducer network_reducer
forget_network_thunk-granted toolkit env ssid w =
    rw (toolkit.course env (λ x. Action.network (forget_network x)) (forget_creator ssid) w)
      (ground arith)

-- A request to leave the hotspot is remembered with its time exactly if the board grants it.
pub connect_to_saved_networks_thunk-granted :
    (toolkit : Toolkit) (env : Env) (w : World)
    → let r = post_to Endpoint.connection_apply empty_body in
      let v = send env r (apply (Action.network (connect_to_saved_networks pending)) w) in
      let u = (run env (connect_to_saved_networks_thunk toolkit) w).0 in
      (u.requests ≡ r ∷ w.requests)
      × (u.state.network.connect_requested_at ≡ (
          if granted (delivered env r w.waits)
          then some v.clock
          else v.state.network.connect_requested_at))
unfolding connect_to_saved_networks_thunk connect_creator connect_attempt network_failed run apply
    send root_reducer network_reducer
connect_to_saved_networks_thunk-granted toolkit env w =
    rw (toolkit.course env (λ x. Action.network (connect_to_saved_networks x)) connect_creator w)
      (ground arith)
