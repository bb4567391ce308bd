-- ===== src/Tests/Snackbars.antt =====
-- The notifications at concrete inputs.
use shareframe_board.Common.{◌≡◌, refl, none, List, [], ◌∷◌, map, String}
use shareframe_board.Snackbars.{
  AlertSnackbarItem, initial_state, push_alert, snackbars_reducer, success, max_alert_snackbars,
}
use shareframe_board.Snackbars.Alerts.{add_all, last_of, add_all_newest}

abbrev note : String → AlertSnackbarItem
note id = record {
  item = record { id = id; message = "Abgemeldet"; auto_hide_duration = none };
  severity = success;
}

abbrev six : List AlertSnackbarItem
six = map note ("a" ∷ "b" ∷ "c" ∷ "d" ∷ "e" ∷ "f" ∷ [])

six_shown : map (λ s. s.id) (add_all six initial_state).alerts ≡ "b" ∷ "c" ∷ "d" ∷ "e" ∷ "f" ∷ []
unfolding add_all snackbars_reducer push_alert
six_shown = refl

add_all_newest_example : (add_all six initial_state).alerts ≡ last_of max_alert_snackbars six
add_all_newest_example = add_all_newest six initial_state refl
