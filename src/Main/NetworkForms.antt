-- ===== src/Main/NetworkForms.antt =====
-- dashboard-frontend/frontend/src/main/network/dialogs/dialogs.tsx: the dialogs of the page for the
-- network, with what is typed into them and what their handlers do before and after the thunk that
-- they wait for.
pub mod Kept
pub mod Passwords
use Prim.Native.Char.{Char, code}
use Prim.Native.String
use shareframe_board.Common.{
  ℕ, suc, ◌+◌, Bool, true, false, not, ◌&&◌, ◌||◌, String, str_eq, leb, ltb, if◌then◌else◌,
}
use shareframe_board.Dialogs.{
  DialogsState, DialogsAction, dialogs_reducer, network_add_network_dialog_opened,
  network_add_network_dialog_closed, network_forget_network_dialog_opened,
  network_forget_network_dialog_closed, network_change_ap_password_dialog_opened,
  network_change_ap_password_dialog_closed, network_connect_dialog_opened,
  network_connect_dialog_closed,
}
use shareframe_board.Network.{NetworkCredentials}
use shareframe_board.Thunk.{Prog}
use shareframe_board.Thunk.Toolkit.{Toolkit}
use shareframe_board.Thunks.Network.{
  add_network_thunk, forget_network_thunk, change_ap_password_thunk,
  connect_to_saved_networks_thunk,
}

pub record NetworkForms : Type 0 where
  pub new_network : NetworkCredentials
  pub submitting : Bool
  pub show_password : Bool
  pub ap_password : String
  pub ap_password_confirm : String

abbrev pub no_network : NetworkCredentials
no_network = record { ssid = ""; password = "" }

abbrev pub blank : NetworkForms
blank = record {
  new_network = no_network;
  submitting = false;
  show_password = false;
  ap_password = "";
  ap_password_confirm = "";
}

-- The forms and the slice that says which dialogs are open.
pub record NetworkPage : Type 0 where
  pub forms : NetworkForms
  pub dialogs : DialogsState

-- The four dialogs, each with what it submits.
pub data Submission : Type 0 where
  adding forgetting changing_ap connecting_saved : Submission

-- `length` counts the units of UTF-16.
unfoldable pub utf16_length : String → ℕ
utf16_length String.[] = 0
utf16_length (String.◌∷◌ c s) = (if ltb (code c) 65536 then 1 else 2) + utf16_length s

abbrev pub is_printable : ℕ → Bool
is_printable c = leb 32 c && leb c 126

-- `AP_PASSWORD_PATTERN.test`.
unfoldable pub matches_ap_pattern : String → Bool
matches_ap_pattern String.[] = true
matches_ap_pattern (String.◌∷◌ c s) = is_printable (code c) && matches_ap_pattern s

unfoldable pub ap_password_mismatch : NetworkForms → Bool
ap_password_mismatch f =
    ltb 0 (utf16_length f.ap_password_confirm) && not (str_eq f.ap_password f.ap_password_confirm)

unfoldable pub can_submit_ap_password : Bool → Bool → NetworkForms → Bool
can_submit_ap_password loading is_connected f =
    leb 8 (utf16_length f.ap_password)
    && leb (utf16_length f.ap_password) 63
    && matches_ap_pattern f.ap_password
    && str_eq f.ap_password f.ap_password_confirm
    && not loading
    && is_connected

-- `submitDisabled` and `confirmDisabled`.
unfoldable pub submit_disabled : Submission → Bool → Bool → NetworkForms → Bool
submit_disabled changing_ap loading is_connected f =
    not (can_submit_ap_password loading is_connected f)
submit_disabled _ loading is_connected f = loading || not is_connected

unfoldable pub is_open_in : Submission → DialogsState → Bool
is_open_in adding d = d.network.add_network.is_open
is_open_in forgetting d = d.network.forget_network.is_open
is_open_in changing_ap d = d.network.change_ap_password.is_open
is_open_in connecting_saved d = d.network.connect.is_open

abbrev pub opening : Submission → String → DialogsAction
opening adding ssid = network_add_network_dialog_opened
opening forgetting ssid = network_forget_network_dialog_opened ssid
opening changing_ap ssid = network_change_ap_password_dialog_opened
opening connecting_saved ssid = network_connect_dialog_opened

abbrev pub closing : Submission → DialogsAction
closing adding = network_add_network_dialog_closed
closing forgetting = network_forget_network_dialog_closed
closing changing_ap = network_change_ap_password_dialog_closed
closing connecting_saved = network_connect_dialog_closed

-- What a handler sets back in the forms when it closes its dialog.
unfoldable pub cleared : Submission → NetworkForms → NetworkForms
cleared adding f = record f { new_network = no_network }
cleared changing_ap f = record f { ap_password = ""; ap_password_confirm = "" }
cleared _ f = f

unfoldable pub close_with : Submission → NetworkPage → NetworkPage
close_with x p = record p {
  dialogs = dialogs_reducer p.dialogs (closing x);
  forms = cleared x p.forms;
}

-- A handler up to the thunk that it awaits, and that thunk.
unfoldable pub handle_submit : NetworkPage → NetworkPage
handle_submit p = record p { forms = record (p.forms) { submitting = true } }

unfoldable pub submitted_thunk : Toolkit → Submission → NetworkPage → Prog (Unit {0})
submitted_thunk toolkit adding p = add_network_thunk toolkit p.forms.new_network
submitted_thunk toolkit forgetting p =
    forget_network_thunk toolkit p.dialogs.network.forget_network.ssid
submitted_thunk toolkit changing_ap p = change_ap_password_thunk toolkit p.forms.ap_password
submitted_thunk toolkit connecting_saved p = connect_to_saved_networks_thunk toolkit

abbrev pub no_longer_submitting : NetworkPage → NetworkPage
no_longer_submitting p = record p { forms = record (p.forms) { submitting = false } }

-- A handler after its thunk, which was fulfilled if `granted` is true. Two handlers unwrap it, and
-- close only then; the other two close either way.
unfoldable pub handle_settled : Submission → Bool → NetworkPage → NetworkPage
handle_settled adding granted p = no_longer_submitting (if granted then close_with adding p else p)
handle_settled forgetting granted p = close_with forgetting (no_longer_submitting p)
handle_settled changing_ap granted p =
    no_longer_submitting (if granted then close_with changing_ap p else p)
handle_settled connecting_saved granted p = close_with connecting_saved (no_longer_submitting p)

-- The four ways to close a dialog unsubmitted.
unfoldable pub handle_close : Submission → NetworkPage → NetworkPage
handle_close x p = if p.forms.submitting then p else close_with x p

abbrev pub type_network : NetworkCredentials → NetworkPage → NetworkPage
type_network c p = record p { forms = record (p.forms) { new_network = c } }

abbrev pub type_ap_password : String → NetworkPage → NetworkPage
type_ap_password text p = record p { forms = record (p.forms) { ap_password = text } }

abbrev pub type_ap_confirm : String → NetworkPage → NetworkPage
type_ap_confirm text p = record p { forms = record (p.forms) { ap_password_confirm = text } }

abbrev pub handle_click_show_password : NetworkPage → NetworkPage
handle_click_show_password p = record p {
  forms = record (p.forms) { show_password = not p.forms.show_password };
}
