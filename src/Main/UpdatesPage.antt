-- ===== src/Main/UpdatesPage.antt =====
-- dashboard-frontend/frontend/src/main/updates/updates.tsx and its dialogs/dialogs.tsx: the cards that
-- the page shows, what its buttons do, and when.
pub mod Searched
use shareframe_board.Common.{
  ℕ, Bool, true, false, not, ◌||◌, ◌&&◌, Option, none, some, List, [], ◌∷◌, ◌++◌, String, str_eq,
  if◌then◌else◌,
}
use shareframe_board.Common.Int.{ℤ, pos, ltb_ℤ}
use shareframe_board.Common.Text.{◌<>◌}
use shareframe_board.Dialogs.{
  updates_confirm_update_dialog_opened, updates_confirm_update_dialog_closed,
}
use shareframe_board.Snackbars.{add_loading_snackbar, remove_loading_snackbar}
use shareframe_board.Store.{Action}
use shareframe_board.Thunk.{Prog, ◌>>=◌, ◌>>◌, dispatch, uuid}
use shareframe_board.Thunk.Toolkit.{Toolkit}
use shareframe_board.Thunks.Slideshow.Common.{snackbar}
use shareframe_board.Thunks.Updates.{fetch_latest_release_thunk, perform_update_thunk}
use shareframe_board.Updates.{Release, UpdateStatus, UpdateHistoryEntry, UpdatesState}
use shareframe_board.Main.ReleaseNotes.{ReleaseNotesBlock, trim, parse_release_notes}

unfoldable pub phase_label : String → String
phase_label phase =
    if str_eq phase "checking"
    then "Prüfe Update"
    else if str_eq phase "downloading"
    then "Lade Update herunter"
    else if str_eq phase "installing"
    then "Installiere Update"
    else if str_eq phase "awaiting-reboot"
    then "Neustart wird vorbereitet"
    else phase

-- The phases of an update that runs.
abbrev pub is_active_phase : String → Bool
is_active_phase phase =
    str_eq phase "checking"
    || str_eq phase "downloading"
    || str_eq phase "installing"
    || str_eq phase "awaiting-reboot"

unfoldable pub is_new_version : UpdatesState → Bool
is_new_version s = elim s.latest_release [ none ↦ false | some r ↦ r.is_newer ]

unfoldable pub update_active : UpdatesState → Bool
update_active s = elim s.update_status [ none ↦ false | some u ↦ is_active_phase u.phase ]

unfoldable pub awaiting_confirm : UpdatesState → Bool
awaiting_confirm s = elim s.update_status [
  | none ↦ false
  | some u ↦ not (str_eq u.pending_slot "") && str_eq u.pending_slot u.booted_slot
]

unfoldable pub update_busy : UpdatesState → Bool
update_busy s = update_active s || awaiting_confirm s

-- How long the page waits before it asks for the status again.
unfoldable pub status_poll_ms : UpdatesState → ℕ
status_poll_ms s = if update_active s then 3000 else 15000

-- The cards; `running` has the label, the version that is installed, and the progress in percent
-- if that is known.
pub data UpdateCard : Type 0 where
  overview : Option String → UpdateCard
  running : String → String → Option ℤ → UpdateCard
  being_confirmed : UpdateCard
  has_failed : String → UpdateCard
  rolled_back : UpdateHistoryEntry → UpdateCard
  checking : UpdateCard
  new_version : String → Option (List ReleaseNotesBlock) → UpdateCard
  up_to_date : UpdateCard

abbrev pub shown_if : Bool → UpdateCard → List UpdateCard
shown_if b card = if b then card ∷ [] else []

unfoldable pub progress_of : UpdateStatus → Option ℤ
progress_of u =
    if str_eq u.phase "downloading" && not (ltb_ℤ u.progress (pos 0)) then some u.progress else none

unfoldable pub running_cards : UpdatesState → List UpdateCard
running_cards s = elim s.update_status [
  | none ↦ []
  | some u ↦
      shown_if (update_active s) (running (phase_label u.phase) u.target_version (progress_of u))
]

unfoldable pub failed_cards : UpdatesState → List UpdateCard
failed_cards s = elim s.update_status [
  | none ↦ []
  | some u ↦ shown_if (not (update_active s) && str_eq u.phase "failed") (has_failed u.error)
]

unfoldable pub rolled_back_cards : UpdatesState → List UpdateCard
rolled_back_cards s = elim s.update_status [
  | none ↦ []
  | some u ↦ elim u.last_result [
    | none ↦ []
    | some r ↦ shown_if (not (update_active s) && str_eq r.result "rolled-back") (rolled_back r)
  ]
]

-- The notes are shown unless they are blank.
unfoldable pub notes_of : Release → Option (List ReleaseNotesBlock)
notes_of r =
    if str_eq (trim r.release_notes) "" then none else some (parse_release_notes r.release_notes)

unfoldable pub release_card : UpdatesState → UpdateCard
release_card s =
    if s.loading
    then checking
    else if is_new_version s
    then elim s.latest_release [ none ↦ up_to_date | some r ↦ new_version r.version (notes_of r) ]
    else up_to_date

unfoldable pub cards : Option String → UpdatesState → List UpdateCard
cards current_version s =
    overview current_version ∷ running_cards s
    ++ shown_if (not (update_active s) && awaiting_confirm s) being_confirmed
    ++ failed_cards s
    ++ rolled_back_cards s
    ++ release_card s ∷ []

-- The buttons of the cards `new_version` and `up_to_date`.
unfoldable pub is_install_disabled : Bool → UpdatesState → Bool
is_install_disabled is_connected s = s.loading || not is_connected || update_busy s

unfoldable pub is_check_disabled : Bool → UpdatesState → Bool
is_check_disabled is_connected s = s.loading || not is_connected

abbrev pub handle_install : Prog (Unit {0})
handle_install = dispatch (Action.dialogs updates_confirm_update_dialog_opened)

unfoldable pub handle_fetch_latest_release : Toolkit → Prog (Unit {0})
handle_fetch_latest_release toolkit = do
  snackbar_id ← uuid
  snackbar (add_loading_snackbar snackbar_id "Suche nach Updates")
  fetch_latest_release_thunk toolkit
  snackbar (remove_loading_snackbar snackbar_id)

-- The button of the dialog.
unfoldable pub handle_confirm_update : Toolkit → Prog (Unit {0})
handle_confirm_update toolkit = do
  dispatch (Action.dialogs updates_confirm_update_dialog_closed)
  perform_update_thunk toolkit
