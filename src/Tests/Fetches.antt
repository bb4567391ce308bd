-- ===== src/Tests/Fetches.antt =====
-- The thunks for the networks and for what the board shows, at concrete inputs.
use shareframe_board.Common.{◌≡◌, refl, true, false, ◌&&◌, [], ◌∷◌, if◌then◌else◌}
use shareframe_board.Async.{pending}
use shareframe_board.Network.{NetworkCredentials}
use shareframe_board.SlideshowImages.{fetch_slideshow_images}
use shareframe_board.Snackbars.Loading.{has_loading}
use shareframe_board.Board.{Endpoint, credentials_body, slideshow_images}
use shareframe_board.Store.{Action}
use shareframe_board.Network.{add_network}
use shareframe_board.Thunks.Network.{add_creator}
use shareframe_board.Thunk.Waiting.{until_wait}
use shareframe_board.Thunk.{
  Env, run, send, apply, delivered, get_from, post_to, finished, call_fetch_network_data,
}
use shareframe_board.Thunks.Auth.Session.{granted}
use shareframe_board.Thunks.Network.{add_network_thunk}
use shareframe_board.Thunks.Network.Saved.{IsErrorBy, carried, add_network_thunk-granted}
use shareframe_board.Thunks.Images.{fetch_slideshow_images_thunk}
use shareframe_board.Thunks.Images.Shown.{AreShown, fetch_slideshow_images_thunk-carried}
use shareframe_board.Thunks.Announced.{forgetting, announced_thunk, announced_thunk-has_loading}
use shareframe_board.Tests.Base.{board, at_rest}
use shareframe_board.Tests.Toolkit.{toolkit}

abbrev env : Env
env = board 20 []

abbrev home : NetworkCredentials
home = record { ssid = "home"; password = "12345678" }

add_network_thunk-granted_example :
    let u = (run env (add_network_thunk toolkit home) at_rest).0 in
    let r = post_to Endpoint.connection_connect (credentials_body home) in
    let begun = apply (Action.network (add_network pending)) at_rest in
    let v = send env r (until_wait env (add_creator home) begun) in
    let ok = true && granted (delivered env r 0) in
    (u.requests ≡ (if true then r ∷ [] else []))
    × (u.calls ≡ (if ok then call_fetch_network_data ∷ [] else []))
    × (u.state.network.loading ≡ false)
    × IsErrorBy ok v.state.network.error u.state.network.error
add_network_thunk-granted_example = add_network_thunk-granted toolkit env home at_rest

announced_thunk-has_loading_example :
    let u = run env (announced_thunk toolkit (forgetting "home")) at_rest in
    (has_loading (env.fresh_uuid 0) u.0.state.snackbars.loading ≡ false) × (u.1 ≡ finished tt)
announced_thunk-has_loading_example =
    announced_thunk-has_loading toolkit env (forgetting "home") at_rest refl

fetch_slideshow_images_thunk-carried_example :
    let r = get_from slideshow_images in
    let v = send env r (apply (Action.slideshow_images (fetch_slideshow_images pending)) at_rest) in
    let u = run env (fetch_slideshow_images_thunk toolkit) at_rest in
    (u.0.requests ≡ r ∷ [])
    × (u.0.state.slideshow_images.is_loading ≡ false)
    × AreShown v.clock v.state.slideshow_images
        (carried (delivered env r 0))
        u.0.state.slideshow_images
    × (u.1 ≡ finished tt)
fetch_slideshow_images_thunk-carried_example =
    fetch_slideshow_images_thunk-carried toolkit env at_rest
