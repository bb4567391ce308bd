-- ===== src/Tests/Updating.antt =====
-- Signing in and the page for updates at concrete inputs.
use shareframe_board.Common.{◌≡◌, refl, true, false, none, some, List, [], ◌∷◌, ◌++◌}
use shareframe_board.Common.Int.{pos}
use shareframe_board.ConnectionMode.{ConnectionModeState, connected}
use shareframe_board.ConnectionMode
use shareframe_board.Updates.{UpdateStatus, UpdatesState}
use shareframe_board.Updates
use shareframe_board.Main.SignIn.{
  SignInEvent, initial_state, otp, password, mode_changed, method_toggled, secret_typed,
  login_submitted, login_over, after, method_of, handle_event, switch_when_offline,
  handle_toggle_method, submit_over,
}
use shareframe_board.Main.SignIn.Chosen.{toggled, used, after-toggled}
use shareframe_board.Main.UpdatesPage.{
  overview, running, up_to_date, phase_label, progress_of, update_active, release_card, cards,
  is_new_version, awaiting_confirm, running_cards, failed_cards, rolled_back_cards,
}
use shareframe_board.Main.UpdatesPage.Searched.{handle_fetch_latest_release-has_loading}
use shareframe_board.Main.UpdatesPage.{handle_fetch_latest_release}
use shareframe_board.Common.Text.{show}
use shareframe_board.Snackbars.Loading.{has_loading}
use shareframe_board.Thunk.{run, finished, get_from}
use shareframe_board.Board.{Endpoint}
use shareframe_board.Tests.Base.{board, at_rest}
use shareframe_board.Tests.Toolkit.{toolkit}

-- The board is online; a wrong code is sent. Later the internet is gone, and the method is toggled.
abbrev online : ConnectionModeState
online = record ConnectionMode.initial_state { mode = connected; internet = true; loaded = true }

abbrev attempt : List SignInEvent
attempt = mode_changed online ∷ secret_typed "123456" ∷ login_submitted ∷ login_over true ∷ []

abbrev offline : ConnectionModeState
offline = record online { internet = false }

after-toggled_example :
    (method_of offline (after attempt initial_state) ≡ used offline (toggled attempt otp))
    × (method_of offline
          (after (attempt ++ mode_changed offline ∷ method_toggled ∷ []) initial_state)
        ≡ used offline (toggled (method_toggled ∷ []) password))
after-toggled_example =
    after-toggled attempt offline (method_toggled ∷ []) offline (refl, (refl, (refl, (refl, tt))))
      refl

after_run :
    (after
      (attempt ++ mode_changed offline ∷ method_toggled ∷ mode_changed offline ∷ [])
      initial_state).chosen_method
    ≡ otp
unfolding after handle_event switch_when_offline handle_toggle_method submit_over
after_run = refl

abbrev downloading : UpdatesState
downloading = record Updates.initial_state {
  update_status = some (record {
    phase = "downloading";
    progress = pos 40;
    error = "";
    current_version = "1.0.0";
    target_version = "1.1.0";
    booted_slot = "a";
    committed_slot = "a";
    pending_slot = "";
    committed = true;
    last_result = none;
  });
}

cards_run :
    cards (some "1.0.0") downloading
    ≡ overview (some "1.0.0")
      ∷ running "Lade Update herunter" "1.1.0" (some (pos 40))
      ∷ up_to_date
      ∷ []
unfolding cards running_cards failed_cards rolled_back_cards update_active awaiting_confirm
    release_card is_new_version phase_label progress_of
cards_run = refl

-- A search for updates that fails.
handle_fetch_latest_release-has_loading_example :
    let u = run (board 20 []) (handle_fetch_latest_release toolkit) at_rest in
    (u.0.requests ≡ get_from Endpoint.latest_release ∷ [])
    × (u.0.state.updates.loading ≡ false)
    × (has_loading (show 0) u.0.state.snackbars.loading ≡ false)
    × (u.1 ≡ finished tt)
handle_fetch_latest_release-has_loading_example =
    handle_fetch_latest_release-has_loading toolkit (board 20 []) at_rest
