-- ===== src/Thunks/Overviews/Carried.antt =====
-- What the fetches of frameInfo.Slice.tsx, displayStats.Slice.tsx, displayCustomization.Slice.tsx and
-- updates.Slice.tsx leave, for every answer of the board.
use shareframe_board.Common.{◌≡◌, Bool, true, false, Option, none, some, ◌∷◌, or_else, arith}
use shareframe_board.Async.{pending}
use shareframe_board.FrameInfo.{frame_info_reducer, display_stats_reducer}
use shareframe_board.Updates.{
  fetch_latest_release, fetch_update_status, fetch_update_history, updates_reducer, Release,
}
use shareframe_board.DisplayCustomization.{
  fetch_display_customization, update_show_sender, display_customization_reducer,
}
use shareframe_board.Snackbars.{snackbars_reducer}
use shareframe_board.Snackbars.Loading.{has_loading, has_loading-without_loading}
use shareframe_board.Board.{Endpoint, DataOf, Reply, ServerResponse, show_sender_body}
use shareframe_board.Store.{Action, RootState, root_reducer}
use shareframe_board.Thunk.{
  Prog, Env, World, finished, run, apply, send, delivered, get_from, post_to,
}
use shareframe_board.Thunk.Waiting.{until_wait}
use shareframe_board.Thunk.Toolkit.{Toolkit}
use shareframe_board.Thunks.Auth.Session.{granted}
use shareframe_board.Thunks.Network.Saved.{carried}
use shareframe_board.Thunks.FrameLogs.Cached.{granted_answer}
use shareframe_board.Thunks.Updates.{
  release_attempt, release_failed, fetch_release_creator, update_status_attempt,
  fetch_update_status_creator, history_attempt, update_history_failed, fetch_update_history_creator,
  fetch_latest_release_thunk, fetch_update_status_thunk, fetch_update_history_thunk,
}
use shareframe_board.Thunks.Overviews.{
  infos_attempt, infos_failed, fetch_infos_creator, stats_attempt, stats_failed,
  fetch_stats_creator, customization_attempt, customization_failed, fetch_customization_creator,
  sender_attempt, sender_failed, show_sender_creator, fetch_frame_infos_thunk,
  fetch_display_stats_thunk, fetch_display_customization_thunk, update_show_sender_thunk,
}

-- The fetches, by what they show.
pub data Overview : Type 0 where
  infos stats customization release status history : Overview

abbrev pub overview_thunk : Toolkit → Overview → Prog (Unit {0})
overview_thunk toolkit infos = fetch_frame_infos_thunk toolkit
overview_thunk toolkit stats = fetch_display_stats_thunk toolkit
overview_thunk toolkit customization = fetch_display_customization_thunk toolkit
overview_thunk toolkit release = fetch_latest_release_thunk toolkit
overview_thunk toolkit status = fetch_update_status_thunk toolkit
overview_thunk toolkit history = fetch_update_history_thunk toolkit

abbrev pub source_of : Overview → Endpoint
source_of infos = Endpoint.system_info
source_of stats = Endpoint.display_stats
source_of customization = Endpoint.display_customization
source_of release = Endpoint.latest_release
source_of status = Endpoint.update_status
source_of history = Endpoint.update_history

abbrev pub begun : Overview → Action
begun infos = Action.frame_info pending
begun stats = Action.display_stats pending
begun customization = Action.display_customization (fetch_display_customization pending)
begun release = Action.updates (fetch_latest_release pending)
begun status = Action.updates (fetch_update_status pending)
begun history = Action.updates (fetch_update_history pending)

-- `old`, unless there is something new.
abbrev pub newer {ℓ} : {A : Type ℓ} → Option A → Option A → Option A
newer none old = old
newer (some a) old = some a

-- A release that was granted replaces the old one even where it is none.
abbrev pub release_after : Option (ServerResponse Release) → Option Release → Option Release
release_after none old = old
release_after (some payload) old = payload.content

-- What is shown after a fetch, by the reply and by what was there when it came.
abbrev pub IsOverviewed :
    (o : Overview) → Reply (DataOf (source_of o)) → RootState → RootState → Type 0
IsOverviewed infos r old s =
    (s.frame_info.frame_info ≡ newer (carried r) old.frame_info.frame_info)
    × (s.frame_info.loading ≡ false)
IsOverviewed stats r old s =
    (s.display_stats.display_stats ≡ newer (carried r) old.display_stats.display_stats)
    × (s.display_stats.loading ≡ false)
IsOverviewed customization r old s =
    (s.display_customization.show_sender
      ≡ elim (carried r) [ none ↦ old.display_customization.show_sender | some c ↦ c.show_sender ])
    × (s.display_customization.is_fetching ≡ false)
IsOverviewed release r old s =
    (s.updates.latest_release ≡ release_after (granted_answer r) old.updates.latest_release)
    × (s.updates.loading ≡ false)
IsOverviewed status r old s = s.updates.update_status ≡ newer (carried r) old.updates.update_status
IsOverviewed history r old s =
    (s.updates.history ≡ or_else (carried r) old.updates.history)
    × (s.updates.history_failed
        ≡ elim (carried r) [ none ↦ true | some h ↦ old.updates.history_failed ])

-- Each fetch asks the board once and throws nothing. It shows what the board's answer carries, or
-- leaves what was there; nothing loads any more, and a history that did not come counts as failed.
pub overview_thunk-carried :
    (toolkit : Toolkit) (env : Env) (o : Overview) (w : World)
    → let r = get_from (source_of o) in
      let v = send env r (apply (begun o) w) in
      let u = run env (overview_thunk toolkit o) w in
      (u.0.requests ≡ r ∷ w.requests)
      × IsOverviewed o (delivered env r w.waits) v.state u.0.state
      × (u.1 ≡ finished tt)
unfolding fetch_frame_infos_thunk fetch_infos_creator infos_attempt infos_failed
    fetch_display_stats_thunk fetch_stats_creator stats_attempt stats_failed
    fetch_display_customization_thunk fetch_customization_creator customization_attempt
    customization_failed fetch_latest_release_thunk fetch_release_creator release_attempt
    release_failed fetch_update_status_thunk fetch_update_status_creator update_status_attempt
    fetch_update_history_thunk fetch_update_history_creator history_attempt update_history_failed
    run apply send root_reducer frame_info_reducer display_stats_reducer
    display_customization_reducer updates_reducer
overview_thunk-carried toolkit env infos w =
    rw (toolkit.course env Action.frame_info fetch_infos_creator w) (ground arith)
overview_thunk-carried toolkit env stats w =
    rw (toolkit.course env Action.display_stats fetch_stats_creator w) (ground arith)
overview_thunk-carried toolkit env customization w =
    rw
      (toolkit.course env (λ x. Action.display_customization (fetch_display_customization x))
        fetch_customization_creator w)
      (ground arith)
overview_thunk-carried toolkit env release w =
    rw (toolkit.course env (λ x. Action.updates (fetch_latest_release x)) fetch_release_creator w)
      (ground arith)
overview_thunk-carried toolkit env status w =
    rw
      (toolkit.course env (λ x. Action.updates (fetch_update_status x)) fetch_update_status_creator
        w)
      (ground arith)
overview_thunk-carried toolkit env history w =
    rw
      (toolkit.course env (λ x. Action.updates (fetch_update_history x))
        fetch_update_history_creator w)
      (ground arith)

-- The switch for the sender's name is sent to the board once, and moves exactly if the board grants
-- it; the notification is gone in the end, nothing is under way, and nothing is thrown.
pub update_show_sender_thunk-granted :
    (toolkit : Toolkit) (env : Env) (b : Bool) (w : World)
    → let r = post_to Endpoint.display_customization (show_sender_body b) in
      let v = send env r (
        until_wait env
          (show_sender_creator b)
          (apply (Action.display_customization (update_show_sender pending)) w)) in
      let u = run env (update_show_sender_thunk toolkit b) w in
      (u.0.requests ≡ r ∷ w.requests)
      × (u.0.state.display_customization.show_sender ≡ elim (granted (delivered env r w.waits)) [
        | true ↦ b
        | false ↦ v.state.display_customization.show_sender
      ])
      × (u.0.state.display_customization.is_updating ≡ false)
      × (has_loading (env.fresh_uuid w.uuids) u.0.state.snackbars.loading ≡ false)
      × (u.1 ≡ finished tt)
unfolding update_show_sender_thunk show_sender_creator sender_attempt sender_failed until_wait run
    apply send root_reducer display_customization_reducer snackbars_reducer
update_show_sender_thunk-granted toolkit env b w =
    let v = send env (post_to Endpoint.display_customization (show_sender_body b)) (
      until_wait env (show_sender_creator b)
        (apply (Action.display_customization (update_show_sender pending)) w)) in
    rw
      (toolkit.course env (λ x. Action.display_customization (update_show_sender x))
        (show_sender_creator b) w)
      (ground
        (arith, has_loading-without_loading (env.fresh_uuid w.uuids) v.state.snackbars.loading))
