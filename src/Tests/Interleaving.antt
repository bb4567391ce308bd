-- ===== src/Tests/Interleaving.antt =====
-- The dashboard with several thunks under way, in a concrete order of turns.
use shareframe_board.Common.{◌≡◌, ◌≢◌, refl, ap, false, true-false, ◌==◌, not, [], ◌∷◌}
use shareframe_board.SlideshowOperation.{is_busy}
use shareframe_board.Board.{Reply, answered, failed, other, clear_display, empty_body}
use shareframe_board.Thunk.{
  World, ret, raise, apply, post_to, try_catch, read_json, when, throw_error, ◌>>=◌, ◌>>◌,
}
use shareframe_board.Snackbars.{success}
use shareframe_board.SlideshowOperation.{slideshow_operation_reducer}
use shareframe_board.Store.{root_reducer}
use shareframe_board.Thunks.Slideshow.Common.{alert, restart_actions_timer}
use shareframe_board.Thunks.Slideshow.Skip.{skip_image_thunk}
use shareframe_board.Thunks.Slideshow.Clear.{
  clear_attempt, clear_end, clear_failed, clear_display_thunk,
}
use shareframe_board.Interleaving.Owners.{Program}
use shareframe_board.Thunk.Waiting.{until_wait, rest_of}
use shareframe_board.Thunks.Slideshow.Operations.{skip_image, clear, short, thunk_of}
use shareframe_board.Interleaving.{
  IsPlain, System, system, operate, answer, IsReachable, opened, later,
}
use shareframe_board.Interleaving.Phases.{clearing, skipping, index}
use shareframe_board.Interleaving.Exclusive.{reachable_one, reachable-is_busy}
use shareframe_board.Tests.Base.{board, at_rest}

plain : IsPlain (board 20 [])
plain c = tt

-- The display is being cleared; then somebody asks to skip the picture, which is turned away.
abbrev clearing_display : World
clearing_display = until_wait (board 20 []) (thunk_of (short clear)) at_rest

-- What is left of the clearing while the board has not answered.
abbrev clearing_rest : Reply (Unit {0}) → Program
clearing_rest x =
    let id = (board 20 []).fresh_uuid 0 in
    try_catch
      ((elim x [ failed e ↦ raise e | answered response ↦ ret response ] >>= λ clear_response.
          read_json clear_response >>= λ clear_data.
          when (not clear_data.success) (throw_error "Bildschirm konnte nicht geleert werden")
          >> (alert "Bildschirm geleert" success >> restart_actions_timer))
        >> clear_end id)
      (clear_failed id)

abbrev asked_to_skip : System
asked_to_skip = system (until_wait (board 20 []) (thunk_of (short skip_image)) clearing_display) (
    rest_of (board 20 []) (thunk_of (short skip_image)) clearing_display
    ∷ rest_of (board 20 []) (thunk_of (short clear)) at_rest
    ∷ [])

asked : IsReachable asked_to_skip
asked = later (later (opened at_rest refl) (operate (board 20 []) plain (short clear) at_rest [])) (
    operate (board 20 []) plain (short skip_image) clearing_display
      (rest_of (board 20 []) (thunk_of (short clear)) at_rest ∷ []))

apart : clearing ≢ skipping
apart e = true-false (ap (λ f. index f == 1) e)

reachable_one_example : asked_to_skip.world.state.slideshow_operation.is_skipping_image ≡ false
unfolding until_wait skip_image_thunk is_busy clear_display_thunk clear_attempt apply root_reducer
    slideshow_operation_reducer
reachable_one_example = reachable_one {s = asked_to_skip} clearing skipping asked apart refl

-- The display could not be cleared, and nothing waits any more.
abbrev refused : World
refused = until_wait (board 20 []) (clearing_rest (failed other)) clearing_display

abbrev over : System
over = system refused (rest_of (board 20 []) (clearing_rest (failed other)) clearing_display ∷ [])

was_over : IsReachable over
unfolding rest_of skip_image_thunk is_busy clear_display_thunk clear_attempt clear_end apply
    root_reducer slideshow_operation_reducer
was_over =
    later (later (opened at_rest refl) (operate (board 20 []) plain (short clear) at_rest [])) (
      answer (board 20 []) plain (post_to clear_display empty_body) clearing_rest (failed other)
        clearing_display [] [])

reachable-is_busy_example : is_busy refused.state.slideshow_operation ≡ false
unfolding until_wait rest_of is_busy clear_display_thunk clear_attempt clear_end clear_failed apply
    root_reducer slideshow_operation_reducer
reachable-is_busy_example = reachable-is_busy {s = over} was_over (tt, tt)
