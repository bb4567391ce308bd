-- ===== src/Dialogs/Laws.antt =====
-- What holds of the dialogs of dialogs.Slice.tsx whatever is opened and closed.
use shareframe_board.Common.{◌≡◌, refl, true, ◌||◌, str_eq}
use shareframe_board.Navigation.{NavigationAction, route_changed}
use shareframe_board.Dialogs.{
  DialogsState, DialogsAction, network_forget_network_dialog_opened,
  network_forget_network_dialog_closed, dialogs_reducer, dialogs_on_navigation,
}

-- The dialog to forget a network keeps a network's name only while it is open.
abbrev pub IsTidy : DialogsState → Type 0
IsTidy s = (s.network.forget_network.is_open || str_eq s.network.forget_network.ssid "") ≡ true

pub dialogs_reducer-IsTidy :
    (s : DialogsState) (a : DialogsAction) → IsTidy s → IsTidy (dialogs_reducer s a)
unfolding dialogs_reducer
dialogs_reducer-IsTidy s (network_forget_network_dialog_opened name) h = refl
dialogs_reducer-IsTidy s network_forget_network_dialog_closed h = refl
dialogs_reducer-IsTidy s a h = h

pub dialogs_on_navigation-IsTidy :
    (s : DialogsState) (a : NavigationAction) → IsTidy s → IsTidy (dialogs_on_navigation s a)
unfolding dialogs_on_navigation
dialogs_on_navigation-IsTidy s route_changed h = refl
dialogs_on_navigation-IsTidy s a h = h
