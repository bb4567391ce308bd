-- ===== src/Main/SignIn.antt =====
-- dashboard-frontend/frontend/src/main/authentication/signIn/signIn.tsx: which method is used to sign
-- in, what is typed, and what is sent.
pub mod Chosen
use shareframe_board.Common.{
  Bool, true, false, not, ◌&&◌, ◌||◌, List, [], ◌∷◌, String, str_eq, if◌then◌else◌,
}
use shareframe_board.ConnectionMode.{ConnectionModeState, WifiMode, connecting, connected, ap}
use shareframe_board.Thunk.{Prog}
use shareframe_board.Thunk.Toolkit.{Toolkit}
use shareframe_board.Thunks.Auth.{LoginCredentials, login_thunk}

pub data LoginMethod : Type 0 where
  otp password : LoginMethod

-- The local state; `auto_switched` is a ref.
pub record SignInState : Type 0 where
  pub chosen_method : LoginMethod
  pub secret : String
  pub loading : Bool
  pub show_password : Bool
  pub auto_switched : Bool

abbrev pub initial_state : SignInState
initial_state = record {
  chosen_method = otp;
  secret = "";
  loading = false;
  show_password = false;
  auto_switched = false;
}

abbrev pub is_hotspot_mode : WifiMode → Bool
is_hotspot_mode ap = true
is_hotspot_mode _ = false

unfoldable pub on_hotspot : ConnectionModeState → Bool
on_hotspot m = m.loaded && is_hotspot_mode m.mode

unfoldable pub method_of : ConnectionModeState → SignInState → LoginMethod
method_of m s = if on_hotspot m then password else s.chosen_method

-- The effect that runs when `loaded` or `internet` has changed.
unfoldable pub switch_when_offline : ConnectionModeState → SignInState → SignInState
switch_when_offline m s =
    if not s.auto_switched && m.loaded && not m.internet
    then record s { auto_switched = true; chosen_method = password }
    else s

abbrev pub other_method : LoginMethod → LoginMethod
other_method otp = password
other_method password = otp

unfoldable pub handle_toggle_method : SignInState → SignInState
handle_toggle_method s = record s { chosen_method = other_method s.chosen_method; secret = "" }

abbrev pub handle_click_show_secret : SignInState → SignInState
handle_click_show_secret s = record s { show_password = not s.show_password }

unfoldable pub credentials_for : LoginMethod → String → LoginCredentials
credentials_for otp secret = LoginCredentials.otp secret
credentials_for password secret = LoginCredentials.password secret

-- `handleSubmit` up to the thunk that it awaits, that thunk, and what follows it.
abbrev pub submit_begun : SignInState → SignInState
submit_begun s = record s { loading = true }

unfoldable pub submitted_login :
    Toolkit → Bool → ConnectionModeState → SignInState → Prog (Unit {0})
submitted_login toolkit online m s =
    login_thunk toolkit online (credentials_for (method_of m s) s.secret)

unfoldable pub submit_over : Bool → SignInState → SignInState
submit_over was_rejected s = record s {
  secret = if was_rejected then "" else s.secret;
  loading = false;
}

unfoldable pub is_sign_in_disabled : Bool → SignInState → Bool
is_sign_in_disabled is_connected s = str_eq s.secret "" || not is_connected

-- What happens to the page, and the state after a list of such events.
pub data SignInEvent : Type 0 where
  mode_changed : ConnectionModeState → SignInEvent
  method_toggled show_clicked login_submitted : SignInEvent
  secret_typed : String → SignInEvent
  login_over : Bool → SignInEvent

unfoldable pub handle_event : SignInEvent → SignInState → SignInState
handle_event (mode_changed m) s = switch_when_offline m s
handle_event method_toggled s = handle_toggle_method s
handle_event show_clicked s = handle_click_show_secret s
handle_event login_submitted s = submit_begun s
handle_event (secret_typed text) s = record s { secret = text }
handle_event (login_over was_rejected) s = submit_over was_rejected s

unfoldable pub after : List SignInEvent → SignInState → SignInState
after [] s = s
after (e ∷ events) s = after events (handle_event e s)
