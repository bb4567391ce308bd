-- ===== src/Thunks/Announced.antt =====
-- The thunks of network.Slice.tsx and slideshowImages.Slice.tsx that announce themselves by a loading
-- notification.
use shareframe_board.Common.{◌≡◌, refl, Bool, true, false, not, Option, List, String, arith}
use shareframe_board.Common.Int.{ℤ}
use shareframe_board.Async.{pending}
use shareframe_board.Network.{NetworkCredentials, add_network, forget_network, change_ap_password}
use shareframe_board.SlideshowImages.{PlaybackMode, update_playback_order}
use shareframe_board.Snackbars.Loading.{has_loading}
use shareframe_board.Store.{Action, root_reducer}
use shareframe_board.Thunk.{Prog, Env, World, finished, run, apply, try_catch}
use shareframe_board.Thunk.Toolkit.{Toolkit}
use shareframe_board.Thunks.Notified.{named-has_loading}
use shareframe_board.Thunks.Network.{
  is_incomplete, add_attempt, add_creator, forget_attempt, forget_creator, ap_attempt, ap_creator,
  network_failed, add_network_thunk, forget_network_thunk, change_ap_password_thunk,
}
use shareframe_board.Thunks.Images.{
  order_attempt, order_failed, update_order_creator, update_playback_order_thunk,
}

pub data Announced : Type 0 where
  adding : NetworkCredentials → Announced
  forgetting changing : String → Announced
  ordering : PlaybackMode → Option (List ℤ) → Announced

abbrev pub announced_thunk : Toolkit → Announced → Prog (Unit {0})
announced_thunk toolkit (adding credentials) = add_network_thunk toolkit credentials
announced_thunk toolkit (forgetting ssid) = forget_network_thunk toolkit ssid
announced_thunk toolkit (changing password) = change_ap_password_thunk toolkit password
announced_thunk toolkit (ordering mode order) = update_playback_order_thunk toolkit mode order

-- Whether it begins at all: a network without a name or a password is not added.
abbrev pub begins : Announced → Bool
begins (adding credentials) = not (is_incomplete credentials)
begins _ = true

-- Each of them takes its notification away in the end and throws nothing, whatever the board
-- answers and whatever happens meanwhile, if it begins at all.
pub announced_thunk-has_loading :
    (toolkit : Toolkit) (env : Env) (c : Announced) (w : World)
    → begins c ≡ true
    → let u = run env (announced_thunk toolkit c) w in
      (has_loading (env.fresh_uuid w.uuids) u.0.state.snackbars.loading ≡ false)
      × (u.1 ≡ finished tt)
unfolding add_network_thunk add_creator forget_network_thunk forget_creator change_ap_password_thunk
    ap_creator update_playback_order_thunk update_order_creator apply root_reducer
announced_thunk-has_loading toolkit env (adding credentials) w begun =
    let complete : is_incomplete credentials ≡ false = ground arith in
    rw
      (
        toolkit.course env (λ x. Action.network (add_network x)) (add_creator credentials) w,
        complete,
      )
      (
        named-has_loading env
            (λ id.
              try_catch (add_attempt id credentials)
                (network_failed "WLAN konnte nicht hinzugefügt werden"))
            (apply (Action.network (add_network pending)) w),
        refl,
      )
announced_thunk-has_loading toolkit env (forgetting ssid) w begun =
    rw (toolkit.course env (λ x. Action.network (forget_network x)) (forget_creator ssid) w) (
      named-has_loading env
          (λ id.
            try_catch (forget_attempt id ssid) (network_failed "WLAN konnte nicht entfernt werden"))
          (apply (Action.network (forget_network pending)) w),
      refl,
    )
announced_thunk-has_loading toolkit env (changing password) w begun =
    rw (toolkit.course env (λ x. Action.network (change_ap_password x)) (ap_creator password) w) (
      named-has_loading env
          (λ id.
            try_catch (ap_attempt id password)
              (network_failed "Hotspot-Passwort konnte nicht geändert werden"))
          (apply (Action.network (change_ap_password pending)) w),
      refl,
    )
announced_thunk-has_loading toolkit env (ordering mode order) w begun =
    rw
      (toolkit.course env (λ x. Action.slideshow_images (update_playback_order x))
        (update_order_creator mode order) w)
      (
        named-has_loading env (λ id. try_catch (order_attempt id mode order) order_failed)
            (apply (Action.slideshow_images (update_playback_order pending)) w),
        refl,
      )
