-- ===== src/Tests/Forms.antt =====
-- The dialogs of the network and the order of the pictures at concrete inputs.
use shareframe_board.Common.{◌≡◌, refl, ◌≤◌, true, false, none, some, List, [], ◌∷◌, str_eq}
use shareframe_board.Common.Int.{ℤ, pos}
use shareframe_board.Dialogs.{dialogs_reducer, network_add_network_dialog_opened}
use shareframe_board.SlideshowImages.{SlideshowImage}
use shareframe_board.Main.NetworkForms.{
  NetworkForms, blank, adding, submit_disabled, can_submit_ap_password, utf16_length,
  matches_ap_pattern, is_open_in, type_network, handle_submit, handle_settled,
}
use shareframe_board.Main.NetworkForms.Kept.{
  Visit, arrived, IsReached, at_first, then_, opens, types_network, submits, settles, IsKept,
  IsReached-IsKept,
}
use shareframe_board.Main.NetworkForms.Passwords.{
  utf8_length, ArePrintable, submit_disabled-ArePrintable,
}
use shareframe_board.Main.ImagesPage.{
  ImagesPage, Sortable, taken, without, insert_at, shown, images_with, by_id, move,
}

-- A network is typed in and refused by the board: the dialog stays open and keeps the text.
abbrev opened_visit : Visit
opened_visit = record arrived {
  page = record {
    forms = blank;
    dialogs = dialogs_reducer arrived.page.dialogs network_add_network_dialog_opened;
  };
}

abbrev typed : Visit
typed = record opened_visit {
  page = type_network (record { ssid = "Zuhause"; password = "geheim" }) opened_visit.page;
}

abbrev waiting : Visit
waiting = record { page = handle_submit typed.page; awaited = some adding }

abbrev refused : Visit
refused = record { page = handle_settled adding false waiting.page; awaited = none }

refused-IsReached : IsReached refused
unfolding dialogs_reducer is_open_in handle_submit submit_disabled
refused-IsReached =
    then_
      (then_
        (then_ (then_ at_first (opens adding ""))
          (types_network (record { ssid = "Zuhause"; password = "geheim" }) refl))
        (submits adding false true refl refl refl))
      (settles adding false refl)

IsReached-IsKept_example : IsKept refused
IsReached-IsKept_example = IsReached-IsKept refused refused-IsReached

abbrev with_passwords : NetworkForms
with_passwords = record blank { ap_password = "bilder-2024"; ap_password_confirm = "bilder-2024" }

submit_disabled-ArePrintable_example :
    (8 ≤ utf8_length with_passwords.ap_password)
    × (utf8_length with_passwords.ap_password ≤ 63)
    × ArePrintable with_passwords.ap_password
    × (str_eq with_passwords.ap_password with_passwords.ap_password_confirm ≡ true)
    × (false ≡ false)
    × (true ≡ true)
unfolding submit_disabled can_submit_ap_password utf16_length matches_ap_pattern
submit_disabled-ArePrintable_example = submit_disabled-ArePrintable false true with_passwords refl

-- Two pictures change places.
abbrev moved_in : List ℤ → ℤ → ℤ → List ℤ
moved_in xs (pos from) (pos to) = elim (taken from xs) [
  | none ↦ xs
  | some x ↦ insert_at to x (without from xs)
]
moved_in xs _ _ = xs

abbrev sortable : Sortable
sortable = record { array_move = moved_in; moves = λ xs from to x e t. rw (moved_in, e) refl }

abbrev picture : ℤ → SlideshowImage
picture n = record {
  id = n;
  sender = "Oma";
  received_at = none;
  expires_at = pos 0;
  width = pos 800;
  height = pos 480;
  size_bytes = pos 1000;
  position = n;
}

abbrev two_pictures : List SlideshowImage
two_pictures = picture (pos 7) ∷ picture (pos 9) ∷ []

abbrev as_chosen : ImagesPage
as_chosen = record { images = two_pictures; draft = some (pos 7 ∷ pos 9 ∷ []) }

abbrev exchanged : ImagesPage
exchanged = move sortable as_chosen (pos 0) (pos 1)

exchanged_run : exchanged.draft ≡ some (pos 9 ∷ pos 7 ∷ [])
unfolding move shown images_with by_id
exchanged_run = refl
