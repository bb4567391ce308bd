-- ===== src/Main/FrameActions.antt =====
-- dashboard-frontend/frontend/src/main/frame/frameActions.tsx: the page that controls the slideshow,
-- as its forms, its countdown and what it allows. The numbers that are typed in are whole.
pub mod Allowed
pub mod Countdown
use shareframe_board.Common.{
  ℕ, ◌*◌, Bool, true, false, not, ◌||◌, ◌&&◌, Option, none, some, String, str_eq, is_some,
  if◌then◌else◌,
}
use shareframe_board.Common.Int.{ℤ, pos, scale, ltb_ℤ, ◌-ℤ◌, pos_part}
use shareframe_board.Common.Text.{◌<>◌, show_ℤ}
use shareframe_board.SlideshowOperation.{SlideshowOperationState, NightStyle, slower, hold, pause}
use shareframe_board.SlideshowStatus.{SlideshowStatusState}
use shareframe_board.Store.{RootState}
use shareframe_board.Timers
use shareframe_board.Thunk.{Prog}
use shareframe_board.Thunks.Slideshow.Interval.{update_display_images_loop_interval}
use shareframe_board.Thunks.Slideshow.Night.{update_night_mode}
use shareframe_board.Main.Durations.{format_countdown}

-- What the page reads when it is rendered: the connection, two slices, and whether the two timers
-- run.
pub record FrameInput : Type 0 where
  pub is_connected : Bool
  pub operation : SlideshowOperationState
  pub status : SlideshowStatusState
  pub app_timer_active : Bool
  pub actions_timer_active : Bool

pub data IntervalUnit : Type 0 where
  minutes hours : IntervalUnit

-- The local state of the page.
pub record FrameForm : Type 0 where
  pub interval_value : ℤ
  pub interval_unit : IntervalUnit
  pub night_enabled : Bool
  pub night_start : ℤ
  pub night_end : ℤ
  pub night_interval : ℤ
  pub night_style : NightStyle
  pub seeded_night_key : String
  pub remaining : Option ℤ
  pub seeded_seconds : Option ℤ
  pub seeded_checked_at : Option ℕ

abbrev pub style_text : NightStyle → String
style_text slower = "slower"
style_text hold = "hold"
style_text pause = "pause"

abbrev pub bool_text : Bool → String
bool_text b = if b then "true" else "false"

-- `storedNightKey`.
unfoldable pub stored_night_key : SlideshowOperationState → String
stored_night_key s =
    bool_text s.night_mode_enabled
    <> "|"
    <> show_ℤ s.night_start_hour
    <> "|"
    <> show_ℤ s.night_end_hour
    <> "|"
    <> show_ℤ s.night_interval_mins
    <> "|"
    <> style_text s.night_style

-- The form for the night is filled anew when the stored values have changed.
unfoldable pub seed_night : SlideshowOperationState → FrameForm → FrameForm
seed_night s form =
    if str_eq (stored_night_key s) form.seeded_night_key then form else record form {
      seeded_night_key = stored_night_key s;
      night_enabled = s.night_mode_enabled;
      night_start = s.night_start_hour;
      night_end = s.night_end_hour;
      night_interval = s.night_interval_mins;
      night_style = s.night_style;
    }

abbrev pub same_ℤ : ℤ → ℤ → Bool
same_ℤ a b = not (ltb_ℤ a b || ltb_ℤ b a)

abbrev pub same_seconds : Option ℤ → Option ℤ → Bool
same_seconds none none = true
same_seconds (some a) (some b) = same_ℤ a b
same_seconds _ _ = false

abbrev pub same_time : Option ℕ → Option ℕ → Bool
same_time none none = true
same_time (some a) (some b) = same_ℤ (pos a) (pos b)
same_time _ _ = false

-- The countdown starts anew with each status that was polled.
unfoldable pub seed_countdown : SlideshowStatusState → FrameForm → FrameForm
seed_countdown s form =
    if same_seconds form.seeded_seconds s.seconds_until_next
      && same_time form.seeded_checked_at s.last_checked_at
    then form
    else record form {
      seeded_seconds = s.seconds_until_next;
      seeded_checked_at = s.last_checked_at;
      remaining = s.seconds_until_next;
    }

-- One rendering: both seeds.
abbrev pub render : FrameInput → FrameForm → FrameForm
render i form = seed_countdown i.status (seed_night i.operation form)

-- `Math.max(0, prev - 1)`.
abbrev pub one_less : ℤ → ℤ
one_less n = pos (pos_part (n -ℤ pos 1))

-- The tick of each second.
unfoldable pub tick : FrameForm → FrameForm
tick form = record form {
  remaining = elim form.remaining [ none ↦ none | some n ↦ some (one_less n) ];
}

-- `isConnected && lastCheckedAt !== null`.
abbrev pub is_known : FrameInput → Bool
is_known i = i.is_connected && is_some i.status.last_checked_at

unfoldable pub countdown_text : FrameInput → FrameForm → String
countdown_text i form =
    if not (is_known i)
    then "Unbekannt"
    else if not i.status.is_active
    then "Pausiert"
    else if i.status.is_refreshing
    then "Wird aktualisiert…"
    else elim form.remaining [ none ↦ "—" | some n ↦ format_countdown (pos_part n) ]

-- The smallest and the largest interval are five minutes and a day; in hours, 5 / 60 and 24.
unfoldable pub is_below_min : IntervalUnit → ℤ → Bool
is_below_min minutes v = ltb_ℤ v (pos 5)
is_below_min hours v = ltb_ℤ (scale v 60) (pos 5)

unfoldable pub is_above_max : IntervalUnit → ℤ → Bool
is_above_max minutes v = ltb_ℤ (pos 1440) v
is_above_max hours v = ltb_ℤ (pos 24) v

unfoldable pub interval_mins_of : IntervalUnit → ℤ → ℤ
interval_mins_of minutes v = v
interval_mins_of hours v = scale v 60

-- `handleUpdateInterval`.
abbrev pub handle_update_interval : FrameForm → Prog (Unit {0})
handle_update_interval form =
    update_display_images_loop_interval (interval_mins_of form.interval_unit form.interval_value)

-- `handleUpdateNightMode`.
abbrev pub handle_update_night_mode : FrameForm → Prog (Unit {0})
handle_update_night_mode form =
    update_night_mode form.night_enabled form.night_start form.night_end form.night_interval
      form.night_style

unfoldable pub is_night_form_invalid : FrameForm → Bool
is_night_form_invalid form =
    same_ℤ form.night_start form.night_end
    || ltb_ℤ form.night_interval (pos 5)
    || ltb_ℤ (pos 1440) form.night_interval

unfoldable pub is_loop_loading : FrameInput → Bool
is_loop_loading i =
    i.status.is_active
    && not i.status.loop_started
    && i.is_connected
    && is_some i.status.last_checked_at

unfoldable pub is_timer_running : FrameInput → Bool
is_timer_running i = i.actions_timer_active || i.app_timer_active

unfoldable pub is_buttons_disabled : FrameInput → Bool
is_buttons_disabled i =
    is_timer_running i
    || is_loop_loading i
    || i.operation.is_toggling
    || i.operation.is_clearing_display
    || i.operation.is_skipping_image
    || i.status.is_refreshing
    || not i.is_connected
    || not (is_some i.status.last_checked_at)

unfoldable pub is_night_mode_disabled : FrameInput → Bool
is_night_mode_disabled i =
    not i.is_connected
    || not (is_some i.status.last_checked_at)
    || i.operation.is_updating_night_mode

-- The `disabled` of the five buttons.
pub data FrameButton : Type 0 where
  toggle_slideshow save_interval save_night_mode skip clear : FrameButton

abbrev pub is_save_interval_disabled : FrameInput → FrameForm → Bool
is_save_interval_disabled i form =
    is_buttons_disabled i
    || i.operation.is_updating_interval
    || i.operation.is_fetching_interval
    || is_below_min form.interval_unit form.interval_value
    || is_above_max form.interval_unit form.interval_value

abbrev pub is_save_night_mode_disabled : FrameInput → FrameForm → Bool
is_save_night_mode_disabled i form =
    is_night_mode_disabled i || i.operation.is_fetching_night_mode || is_night_form_invalid form

abbrev pub is_skip_disabled : FrameInput → Bool
is_skip_disabled i = is_buttons_disabled i || not i.status.is_active

abbrev pub is_clear_disabled : FrameInput → Bool
is_clear_disabled i = is_buttons_disabled i || i.status.is_active

unfoldable pub is_disabled : FrameInput → FrameForm → FrameButton → Bool
is_disabled i form toggle_slideshow = is_buttons_disabled i
is_disabled i form save_interval = is_save_interval_disabled i form
is_disabled i form save_night_mode = is_save_night_mode_disabled i form
is_disabled i form skip = is_skip_disabled i
is_disabled i form clear = is_clear_disabled i
