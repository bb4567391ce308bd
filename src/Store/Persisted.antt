-- ===== src/Store/Persisted.antt =====
-- dashboard-frontend/frontend/src/store/index.ts and store/migrations.ts: which slices survive a
-- reload of the page. The package redux-persist, which writes and reads them, is an interface with
-- its documented behaviour.
pub mod Reloaded
use shareframe_board.Common.{
  ◌≡◌, Bool, true, false, not, ◌&&◌, Option, none, some, List, [], ◌∷◌, String, str_eq, filter,
  if◌then◌else◌,
}
use shareframe_board.Navigation.{NavigationState}
use shareframe_board.Store.{RootState}

-- The slices of the root reducer that hold state.
pub data Slice : Type 0 where
  snackbars slideshow_operation slideshow_status timers network connection_mode auth : Slice
  frame_info display_stats updates loading_wall frame_logs navigation dialogs services : Slice
  slideshow_images display_customization : Slice

-- `blacklist` of `persistConfig`.
abbrev pub is_blacklisted : Slice → Bool
is_blacklisted slideshow_images = true
is_blacklisted dialogs = true
is_blacklisted display_customization = true
is_blacklisted _ = false

-- The outbound half of `closePhoneMenu`; `is_wide` is what `matchMedia` says of 1200 pixels.
unfoldable pub close_phone_menu : Bool → NavigationState → NavigationState
close_phone_menu is_wide s = record s {
  sidebar = record { open_now = s.sidebar.open_now && is_wide };
}

-- `dropDialogs` of migrations.ts, on the stored state as the keys and values that it is.
unfoldable pub drop_dialogs : {V : Type 0} → Option (List (String × V)) → Option (List (String × V))
drop_dialogs none = none
drop_dialogs (some entries) = some (filter (λ (k, v). not (str_eq k "dialogs")) entries)

-- Two states agree on a slice.
abbrev pub AgreeOn : Slice → RootState → RootState → Type 0
AgreeOn snackbars s t = s.snackbars ≡ t.snackbars
AgreeOn slideshow_operation s t = s.slideshow_operation ≡ t.slideshow_operation
AgreeOn slideshow_status s t = s.slideshow_status ≡ t.slideshow_status
AgreeOn timers s t = s.timers ≡ t.timers
AgreeOn network s t = s.network ≡ t.network
AgreeOn connection_mode s t = s.connection_mode ≡ t.connection_mode
AgreeOn auth s t = s.auth ≡ t.auth
AgreeOn frame_info s t = s.frame_info ≡ t.frame_info
AgreeOn display_stats s t = s.display_stats ≡ t.display_stats
AgreeOn updates s t = s.updates ≡ t.updates
AgreeOn loading_wall s t = s.loading_wall ≡ t.loading_wall
AgreeOn frame_logs s t = s.frame_logs ≡ t.frame_logs
AgreeOn navigation s t = s.navigation ≡ t.navigation
AgreeOn dialogs s t = s.dialogs ≡ t.dialogs
AgreeOn services s t = s.services ≡ t.services
AgreeOn slideshow_images s t = s.slideshow_images ≡ t.slideshow_images
AgreeOn display_customization s t = s.display_customization ≡ t.display_customization

-- `transforms` of `persistConfig`, on the state that was stored.
abbrev pub transformed : Bool → RootState → RootState
transformed is_wide s = record s { navigation = close_phone_menu is_wide s.navigation }

-- `persistReducer` with `autoMergeLevel2`: a slice that is not in the blacklist comes back as it was
-- stored, through the transforms, and one that is begins anew.
pub record Persistence : Type 0 where
  pub rehydrate : (is_wide : Bool) → (stored initial : RootState) → RootState
  pub merges :
      (is_wide : Bool) (stored initial : RootState) (slice : Slice)
      → AgreeOn slice
          (rehydrate is_wide stored initial)
          (if is_blacklisted slice then initial else transformed is_wide stored)
