-- ===== src/DisplayCustomization.antt =====
-- dashboard-frontend/frontend/src/store/displayCustomization/displayCustomization.Slice.tsx: whether
-- the name of the sender is shown, as state and reducer. The thunks of the file are in
-- Thunks/Overviews.
use shareframe_board.Common.{Bool, true, false}
use shareframe_board.Async.{Stage, pending, fulfilled, rejected}

-- The board's answer; the state keeps its only field.
pub record DisplayCustomization : Type 0 where
  pub show_sender : Bool

pub record DisplayCustomizationState : Type 0 where
  pub show_sender : Bool
  pub is_fetching : Bool
  pub is_updating : Bool

abbrev pub initial_state : DisplayCustomizationState
initial_state = record { show_sender = false; is_fetching = false; is_updating = false }

pub data DisplayCustomizationAction : Type 0 where
  fetch_display_customization : Stage DisplayCustomization → DisplayCustomizationAction
  update_show_sender : Stage Bool → DisplayCustomizationAction

unfoldable pub display_customization_reducer :
    DisplayCustomizationState → DisplayCustomizationAction → DisplayCustomizationState
display_customization_reducer s (fetch_display_customization pending) = record s {
  is_fetching = true;
}
display_customization_reducer s (fetch_display_customization (fulfilled c)) = record s {
  is_fetching = false;
  show_sender = c.show_sender;
}
display_customization_reducer s (fetch_display_customization (rejected r)) = record s {
  is_fetching = false;
}
display_customization_reducer s (update_show_sender pending) = record s { is_updating = true }
display_customization_reducer s (update_show_sender (fulfilled b)) = record s {
  is_updating = false;
  show_sender = b;
}
display_customization_reducer s (update_show_sender (rejected r)) = record s { is_updating = false }
