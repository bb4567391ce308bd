-- ===== src/Main/FrameActions/Countdown.antt =====
-- The forms of frameActions.tsx over several renderings, and its countdown.
use shareframe_board.Common.{
  ℕ, zero, suc, ◌-◌, ◌≡◌, Bool, true, false, ◌&&◌, Option, some, str_eq, eq_refl, arith,
}
use shareframe_board.Common.Int.{ℤ, pos, ◌-ℤ◌}
use shareframe_board.SlideshowOperation.{SlideshowOperationState, NightStyle}
use shareframe_board.Main.FrameActions.{
  FrameInput, FrameForm, stored_night_key, seed_night, seed_countdown, render, tick, same_seconds,
  same_time,
}

same_seconds-same : (n : Option ℤ) → same_seconds n n ≡ true
same_seconds-same n = ground arith

same_time-same : (n : Option ℕ) → same_time n n ≡ true
same_time-same n = ground arith

abbrev pub ticks : ℕ → FrameForm → FrameForm
ticks zero form = form
ticks (suc n) form = tick (ticks n form)

ticks-remaining :
    (n seconds : ℕ) (form : FrameForm)
    → form.remaining ≡ some (pos seconds)
    → (ticks n form).remaining ≡ some (pos (seconds - n))
unfolding tick ◌-ℤ◌
ticks-remaining zero seconds form h = ground arith
ticks-remaining (suc n) seconds form h = ground (arith, ticks-remaining n seconds form h)

-- A status that was polled with `seconds` to go, and differs from the one before, starts the countdown
-- at `seconds`; each second takes one off, and it stops at zero.
pub ticks-render :
    (i : FrameInput) (form : FrameForm) (seconds n : ℕ)
    → i.status.seconds_until_next ≡ some (pos seconds)
    → (same_seconds form.seeded_seconds i.status.seconds_until_next
        && same_time form.seeded_checked_at i.status.last_checked_at)
      ≡ false
    → (ticks n (render i form)).remaining ≡ some (pos (seconds - n))
unfolding seed_countdown seed_night
ticks-render i form seconds n h d = ticks-remaining n seconds (render i form) (ground arith)

-- What a rendering makes of the form for the night, by whether the stored values are still those that
-- it was last filled with.
abbrev pub IsFilled : SlideshowOperationState → Bool → FrameForm → FrameForm → Type 0
IsFilled s true old f =
    (f.night_enabled ≡ old.night_enabled)
    × (f.night_start ≡ old.night_start)
    × (f.night_end ≡ old.night_end)
    × (f.night_interval ≡ old.night_interval)
    × (f.night_style ≡ old.night_style)
IsFilled s false old f =
    (f.night_enabled ≡ s.night_mode_enabled)
    × (f.night_start ≡ s.night_start_hour)
    × (f.night_end ≡ s.night_end_hour)
    × (f.night_interval ≡ s.night_interval_mins)
    × (f.night_style ≡ s.night_style)

-- Neither of the two conditions under which a rendering sets state holds.
abbrev pub is_at_rest : FrameInput → FrameForm → Bool
is_at_rest i f =
    str_eq (stored_night_key i.operation) f.seeded_night_key
    && same_seconds f.seeded_seconds i.status.seconds_until_next
    && same_time f.seeded_checked_at i.status.last_checked_at

-- What people change in the form between two renderings, and the tick of the countdown.
abbrev pub edited : Bool → ℤ → ℤ → ℤ → NightStyle → FrameForm → FrameForm
edited enabled start end interval style f = tick (record f {
  night_enabled = enabled;
  night_start = start;
  night_end = end;
  night_interval = interval;
  night_style = style;
})

render-is_at_rest : (i : FrameInput) (form : FrameForm) → is_at_rest i (render i form) ≡ true
unfolding seed_night seed_countdown
render-is_at_rest i form = ground (
  arith,
  eq_refl (stored_night_key i.operation),
  same_seconds-same i.status.seconds_until_next,
  same_time-same i.status.last_checked_at,
)

rest-render : (i : FrameInput) (form : FrameForm) → is_at_rest i form ≡ true → render i form ≡ form
unfolding seed_night seed_countdown
rest-render i form h = ground arith

-- A rendering keeps the form for the night while the stored values are those that it was last filled
-- with, and otherwise fills it with them. Setting the state while rendering comes to rest: after one
-- rendering none of its conditions holds any more. So whatever is typed then, and the countdown after
-- its tick, stay as they are through further renderings with the same input.
pub render-render :
    (i : FrameInput) (form : FrameForm) (enabled : Bool) (start end interval : ℤ)
    (style : NightStyle)
    → let typed = edited enabled start end interval style (render i form) in
      IsFilled i.operation
        (str_eq (stored_night_key i.operation) form.seeded_night_key)
        form
        (render i form)
      × (is_at_rest i (render i form) ≡ true)
      × (render i typed ≡ typed)
unfolding seed_night seed_countdown tick
render-render i form enabled start end interval style =
    let r = render-is_at_rest i form in
    (ground arith, r, rest-render i (edited enabled start end interval style (render i form)) r)
