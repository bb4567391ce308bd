-- ===== src/Interleaving/Operations.antt =====
-- Each operation of slideshowOperation.Slice.tsx raises its flag before it first waits, raises no
-- other, and lowers its own on every path.
use shareframe_board.Common.{arith, String}
use shareframe_board.Common.Int.{ℤ}
use shareframe_board.Board.{failed, answered}
use shareframe_board.Thunk.{Prog, try_catch, finally, ◌>>◌, ret, raise}
use shareframe_board.Thunks.Slideshow.Interval.{
  interval_attempt, interval_end, interval_failed, interval_saved,
}
use shareframe_board.Thunks.Slideshow.Toggle.{toggle_attempt, toggle_failed}
use shareframe_board.Thunks.Slideshow.Skip.{skip_attempt, skip_end, skip_failed}
use shareframe_board.Thunks.Slideshow.Show.{show_attempt, show_failed, show_last}
use shareframe_board.Thunks.Slideshow.Clear.{clear_attempt, clear_end, clear_failed}
use shareframe_board.Interleaving.Phases.{
  Flag, toggling, clearing, skipping, showing, updating, Phase, idle, Along, Along-try_catch,
  Along-finally,
}
use shareframe_board.Common.{◌≡◌, refl}
use shareframe_board.SlideshowOperation.{is_busy}
use shareframe_board.Store.{Action}
use shareframe_board.Thunk.{dispatching}
use shareframe_board.Thunks.Slideshow.Common.{unless_state}
use shareframe_board.Thunks.Slideshow.Skip.{skip_image_thunk}
use shareframe_board.Thunks.Slideshow.Show.{show_image_thunk}
use shareframe_board.Thunks.Slideshow.Clear.{clear_display_thunk}
use shareframe_board.Thunks.Slideshow.Interval.{update_display_images_loop_interval}
use shareframe_board.Thunks.Slideshow.Toggle.{toggle_slideshow_thunk}
use shareframe_board.Thunks.Slideshow.Operations.{
  skip_image, clear, show_image, update_interval, Operation, short, toggle, thunk_of,
}
use shareframe_board.Interleaving.Flags.{raising}
use shareframe_board.Interleaving.Ends.{Ends, Caught, Goes, tried}
use shareframe_board.Interleaving.Watching.{toggle-Ends}

-- What an operation does once the guard has let it in.
abbrev pub body_of : Operation → String → Prog (Unit {0})
body_of (short skip_image) id = try_catch (skip_attempt id >> skip_end id) (skip_failed id)
body_of (short clear) id = try_catch (clear_attempt id >> clear_end id) (clear_failed id)
body_of (short (show_image n)) id =
    finally (try_catch (show_attempt n id) show_failed) (show_last id)
body_of (short (update_interval m)) id =
    try_catch (interval_attempt m id >> interval_end id) (interval_failed id)
body_of toggle id = try_catch (toggle_attempt id) (toggle_failed id)

abbrev pub flag_raised : Operation → Flag
flag_raised (short skip_image) = skipping
flag_raised (short clear) = clearing
flag_raised (short (show_image n)) = showing
flag_raised (short (update_interval m)) = updating
flag_raised toggle = toggling

pub guarded : (o : Operation) → thunk_of o ≡ unless_state is_busy (body_of o)
unfolding skip_image_thunk clear_display_thunk update_display_images_loop_interval show_image_thunk
    toggle_slideshow_thunk
guarded (short skip_image) = refl
guarded (short clear) = refl
guarded (short (show_image n)) = refl
guarded (short (update_interval m)) = refl
guarded toggle = refl

skip-Goes :
    (id : String)
    → Along (Goes (skip_failed id) (skip_end id)) (Caught (skip_failed id)) idle (skip_attempt id)
unfolding skip_attempt skip_end skip_failed
skip-Goes id (failed e) = λ _. tt
skip-Goes id (answered x) = ground arith

clear-Goes :
    (id : String)
    → Along
        (Goes (clear_failed id) (clear_end id))
        (Caught (clear_failed id))
        idle
        (clear_attempt id)
unfolding clear_attempt clear_end clear_failed
clear-Goes id (failed e) = λ _. tt
clear-Goes id (answered x) = ground arith

interval-Goes :
    (m : ℤ) (id : String)
    → Along
        (Goes (interval_failed id) (interval_end id))
        (Caught (interval_failed id))
        idle
        (interval_attempt m id)
unfolding interval_attempt interval_end interval_failed interval_saved
interval-Goes m id (failed e) = λ _. tt
interval-Goes m id (answered x) = ground arith

-- The handler of a picture that is not shown leaves the flag to the `finally` block.
abbrev Shown : String → Phase → Unit {0} → Type 0
Shown id g a = Ends (show_last id >> ret a) g

show_goes :
    (n : ℤ) (id : String)
    → Along
        (Shown id)
        (λ g e. Along (Shown id) (λ g' x. Ends (show_last id >> raise x) g') g (show_failed e))
        idle
        (show_attempt n id)
unfolding show_attempt show_failed show_last
show_goes n id (failed e) = λ _. tt
show_goes n id (answered x) = ground arith

pub body-Ends : (o : Operation) (id : String) → Ends (body_of o id) idle
body-Ends (short skip_image) id =
    tried (skip_attempt id) (skip_end id) (skip_failed id) (skip-Goes id)
body-Ends (short clear) id =
    tried (clear_attempt id) (clear_end id) (clear_failed id) (clear-Goes id)
body-Ends (short (show_image n)) id =
    Along-finally _ _ idle (try_catch (show_attempt n id) show_failed) (show_last id)
      (Along-try_catch (Shown id) _ idle (show_attempt n id) show_failed (show_goes n id))
body-Ends (short (update_interval m)) id =
    tried (interval_attempt m id) (interval_end id) (interval_failed id) (interval-Goes m id)
body-Ends toggle id = toggle-Ends id

-- The flag is raised before all else.
abbrev pub RaisesFirst : Flag → Prog (Unit {0}) → Type 0
RaisesFirst f (dispatching a q) = a ≡ Action.slideshow_operation (raising f)
RaisesFirst f _ = ⊥

pub body-RaisesFirst : (o : Operation) (id : String) → RaisesFirst (flag_raised o) (body_of o id)
unfolding skip_attempt clear_attempt interval_attempt show_attempt toggle_attempt
body-RaisesFirst (short skip_image) id = refl
body-RaisesFirst (short clear) id = refl
body-RaisesFirst (short (show_image n)) id = refl
body-RaisesFirst (short (update_interval m)) id = refl
body-RaisesFirst toggle id = refl
