-- ===== src/Main/NetworkForms/Kept.antt =====
-- The dialogs of dialogs.tsx over time: what people do with them, and the answers that come later.
use shareframe_board.Common.{
  ◌≡◌, refl, Bool, true, false, ◌&&◌, ◌||◌, Option, none, some, is_some, String, str_eq,
  if◌then◌else◌, arith,
}
use shareframe_board.Dialogs
use shareframe_board.Dialogs.{DialogsState, dialogs_reducer}
use shareframe_board.Network.{NetworkCredentials}
use shareframe_board.Main.NetworkForms.{
  NetworkPage, blank, Submission, adding, forgetting, changing_ap, connecting_saved,
  submit_disabled, is_open_in, opening, cleared, close_with, handle_submit, handle_settled,
  handle_close, type_network, type_ap_password, type_ap_confirm, handle_click_show_password,
}

-- The page, and the submission whose thunk is awaited.
pub record Visit : Type 0 where
  pub page : NetworkPage
  pub awaited : Option Submission

abbrev pub arrived : Visit
arrived = record {
  page = record { forms = blank; dialogs = Dialogs.initial_state };
  awaited = none;
}

abbrev pub with_page : Visit → NetworkPage → Visit
with_page v p = record v { page = p }

-- What can happen while the page is shown. Text is typed into open dialogs, and a dialog submits
-- only while it is open, nothing is submitted and its button is not disabled, whatever the rest of
-- the dashboard is at.
infix 40 ◌⟶◌
pub data ◌⟶◌ : Visit → Visit → Type 0 where
  opens :
      {v : Visit} (x : Submission) (ssid : String)
      → v
        ⟶ with_page v
            (record (v.page) { dialogs = dialogs_reducer v.page.dialogs (opening x ssid) })
  types_network :
      {v : Visit} (c : NetworkCredentials)
      → is_open_in adding v.page.dialogs ≡ true
      → v ⟶ with_page v (type_network c v.page)
  types_password :
      {v : Visit} (text : String)
      → is_open_in changing_ap v.page.dialogs ≡ true
      → v ⟶ with_page v (type_ap_password text v.page)
  types_confirm :
      {v : Visit} (text : String)
      → is_open_in changing_ap v.page.dialogs ≡ true
      → v ⟶ with_page v (type_ap_confirm text v.page)
  shows : {v : Visit} → v ⟶ with_page v (handle_click_show_password v.page)
  submits :
      {v : Visit} (x : Submission) (loading is_connected : Bool)
      → is_open_in x v.page.dialogs ≡ true
      → v.page.forms.submitting ≡ false
      → submit_disabled x loading is_connected v.page.forms ≡ false
      → v ⟶ record v { page = handle_submit v.page; awaited = some x }
  settles :
      {v : Visit} (x : Submission) (granted : Bool)
      → v.awaited ≡ some x
      → v ⟶ record v { page = handle_settled x granted v.page; awaited = none }
  closes : {v : Visit} (x : Submission) → v ⟶ with_page v (handle_close x v.page)

pub data IsReached : Visit → Type 0 where
  at_first : IsReached arrived
  then_ : {v w : Visit} → IsReached v → v ⟶ w → IsReached w

abbrev pub is_no_network : NetworkCredentials → Bool
is_no_network c = str_eq c.ssid "" && str_eq c.password ""

abbrev pub is_awaited_open : Option Submission → DialogsState → Bool
is_awaited_open none d = true
is_awaited_open (some x) d = is_open_in x d

abbrev pub IsKept : Visit → Type 0
IsKept v =
    (v.page.forms.submitting ≡ is_some v.awaited)
    × (is_awaited_open v.awaited v.page.dialogs ≡ true)
    × ((is_open_in adding v.page.dialogs || is_no_network v.page.forms.new_network) ≡ true)
    × ((is_open_in changing_ap v.page.dialogs
          || (str_eq v.page.forms.ap_password "" && str_eq v.page.forms.ap_password_confirm ""))
        ≡ true)

opened-is_open_in :
    (x y : Submission) (ssid : String) (d : DialogsState)
    → is_open_in y d ≡ true
    → is_open_in y (dialogs_reducer d (opening x ssid)) ≡ true
unfolding dialogs_reducer is_open_in
opened-is_open_in x y ssid d h = ground arith

opened-is_awaited_open :
    (x : Submission) (a : Option Submission) (ssid : String) (d : DialogsState)
    → is_awaited_open a d ≡ true
    → is_awaited_open a (dialogs_reducer d (opening x ssid)) ≡ true
opened-is_awaited_open x none ssid d h = refl
opened-is_awaited_open x (some y) ssid d h = opened-is_open_in x y ssid d h

opens-IsKept :
    (v : Visit) (x : Submission) (ssid : String)
    → IsKept v
    → IsKept (
        with_page v (record (v.page) { dialogs = dialogs_reducer v.page.dialogs (opening x ssid) }))
unfolding dialogs_reducer is_open_in
opens-IsKept v x ssid (s, o, n, p) =
    (s, opened-is_awaited_open x v.awaited ssid v.page.dialogs o, ground arith, ground arith)

settles-IsKept :
    (v : Visit) (x : Submission) (granted : Bool)
    → v.awaited ≡ some x
    → IsKept v
    → IsKept (record v { page = handle_settled x granted v.page; awaited = none })
unfolding dialogs_reducer is_open_in handle_settled close_with cleared
settles-IsKept v adding true a (s, o, n, p) = (refl, refl, refl, p)
settles-IsKept v adding false a (s, o, n, p) = (refl, refl, n, p)
settles-IsKept v forgetting granted a k = ground arith
settles-IsKept v changing_ap true a (s, o, n, p) = (refl, refl, n, refl)
settles-IsKept v changing_ap false a (s, o, n, p) = (refl, refl, n, p)
settles-IsKept v connecting_saved granted a k = ground arith

close_with-IsKept :
    (v : Visit) (x : Submission)
    → v.page.forms.submitting ≡ false
    → IsKept v
    → IsKept (with_page v (close_with x v.page))
unfolding dialogs_reducer is_open_in close_with cleared
close_with-IsKept v adding h (s, o, n, p) = (s, ground arith, refl, p)
close_with-IsKept v forgetting h (s, o, n, p) = (s, ground arith, n, p)
close_with-IsKept v changing_ap h (s, o, n, p) = (s, ground arith, n, refl)
close_with-IsKept v connecting_saved h (s, o, n, p) = (s, ground arith, n, p)

closes-IsKept :
    (v : Visit) (x : Submission) → IsKept v → IsKept (with_page v (handle_close x v.page))
unfolding handle_close
closes-IsKept v x k = go v.page.forms.submitting refl
  where
    go :
        (b : Bool)
        → v.page.forms.submitting ≡ b
        → IsKept (with_page v (if b then v.page else close_with x v.page))
    go true e = k
    go false e = close_with-IsKept v x e k

step-IsKept : (v w : Visit) → v ⟶ w → IsKept v → IsKept w
unfolding is_open_in handle_submit
step-IsKept v w (opens x ssid) k = opens-IsKept v x ssid k
step-IsKept v w (types_network c o) k = ground arith
step-IsKept v w (types_password text o) k = ground arith
step-IsKept v w (types_confirm text o) k = ground arith
step-IsKept v w shows k = ground arith
step-IsKept v w (submits x loading is_connected o s d) k = ground arith
step-IsKept v w (settles x granted a) k = settles-IsKept v x granted a k
step-IsKept v w (closes x) k = closes-IsKept v x k

-- At every time the page counts as submitting exactly while a thunk is awaited, the dialog of that
-- thunk is open, and a dialog that is closed holds nothing that was typed: no password stays behind.
pub IsReached-IsKept : (v : Visit) → IsReached v → IsKept v
unfolding is_open_in
IsReached-IsKept v at_first = (refl, refl, refl, refl)
IsReached-IsKept w (then_ {v} r s) = step-IsKept v w s (IsReached-IsKept v r)
