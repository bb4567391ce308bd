-- ===== src/Tests/Pages.antt =====
-- The pages at concrete inputs.
use shareframe_board.Common.{◌≡◌, refl, arith, ◌||◌, true, false, some, [], ◌∷◌, str_eq}
use shareframe_board.Common.Int.{pos}
use shareframe_board.Common.Text.{show, show_fuel, digit}
use shareframe_board.Common.Split.{split}
use shareframe_board.SlideshowOperation.{is_busy, hold}
use shareframe_board.SlideshowOperation
use shareframe_board.SlideshowStatus
use shareframe_board.ConnectionMode.{ConnectionModeState, connected}
use shareframe_board.ConnectionMode
use shareframe_board.Network
use shareframe_board.Main.Durations.{
  duration_parts, format_duration, text_of_parts, join_words, plural, format_time,
}
use shareframe_board.Main.Durations.Parts.{said, spelled_duration, format_duration-spelled}
use shareframe_board.Main.FrameActions.{
  FrameInput, FrameForm, is_known, is_timer_running, is_loop_loading, is_buttons_disabled,
  is_disabled, hours, skip, render, stored_night_key,
}
use shareframe_board.Main.FrameActions.Allowed.{is_disabled-is_busy}
use shareframe_board.Main.FrameActions.Countdown.{IsFilled, edited, is_at_rest, render-render}
use shareframe_board.Main.NetworkBanner.{
  is_connect_disabled, hotspot_alert, is_connecting, failed_since_request,
}
use shareframe_board.Main.NetworkBanner.Shown.{
  HasTitles, network_status_banner-HasTitles, is_connect_disabled-hotspot_alert,
}
use shareframe_board.Main.ReleaseNotes.{
  paragraph, list, parse_release_notes, note_lines, add_lines, add_line, add_item, bullet_item,
  trim, trim_start, trim_end, is_space, without_return, without_returns,
}
use shareframe_board.Main.ReleaseNotes.Merged.{
  flat, pieces_in, IsMerged, parse_release_notes-IsMerged,
}

-- Durations.
format_duration_run :
    (format_duration 95400000 ≡ "1 Tag 2 Stunden 30 Minuten")
    × (format_duration 20000 ≡ "weniger als 1 Minute")
unfolding format_duration text_of_parts duration_parts join_words plural show show_fuel digit
format_duration_run = (refl, refl)

format_time_run : format_time 605 ≡ "10:05"
unfolding format_time show show_fuel digit
format_time_run = refl

format_duration-spelled_example : format_duration 95400000 ≡ said (spelled_duration 1 2 30)
format_duration-spelled_example =
    format_duration-spelled 95400000 1 2 30 30000 (omega arith) (omega arith) (omega arith)
      (omega arith)

-- The page with the controls, connected and with a slideshow that shows a picture on request.
abbrev showing : FrameInput
showing = record {
  is_connected = true;
  operation = record SlideshowOperation.initial_state { is_showing_image = true };
  status = record SlideshowStatus.initial_state {
    is_active = true;
    loop_started = true;
    seconds_until_next = some (pos 90);
    last_checked_at = some 5000;
  };
  app_timer_active = false;
  actions_timer_active = false;
}

abbrev form : FrameForm
form = record {
  interval_value = pos 2;
  interval_unit = hours;
  night_enabled = true;
  night_start = pos 22;
  night_end = pos 6;
  night_interval = pos 45;
  night_style = hold;
  seeded_night_key = "";
  remaining = some (pos 3);
  seeded_seconds = some (pos 95);
  seeded_checked_at = some 0;
}

is_disabled-is_busy_example :
    (is_known showing ≡ true)
    × (is_timer_running showing ≡ false)
    × (is_busy showing.operation
        ≡ (showing.operation.is_showing_image || showing.operation.is_updating_interval))
unfolding is_disabled is_buttons_disabled is_timer_running is_loop_loading
is_disabled-is_busy_example = is_disabled-is_busy showing form skip refl refl

render-render_example :
    let typed = edited false (pos 23) (pos 5) (pos 30) hold (render showing form) in
    IsFilled showing.operation
      (str_eq (stored_night_key showing.operation) form.seeded_night_key)
      form
      (render showing form)
    × (is_at_rest showing (render showing form) ≡ true)
    × (render showing typed ≡ typed)
render-render_example = render-render showing form false (pos 23) (pos 5) (pos 30) hold

-- The network: connected, but without internet; and asked to connect.
abbrev offline : ConnectionModeState
offline = record ConnectionMode.initial_state { mode = connected; ssid = "Zuhause"; loaded = true }

network_status_banner-HasTitles_example : HasTitles offline
network_status_banner-HasTitles_example = network_status_banner-HasTitles offline

is_connect_disabled-hotspot_alert_example :
    is_connect_disabled true
      (record Network.initial_state { connect_requested_at = some 10 })
      ConnectionMode.initial_state
    ≡ true
unfolding hotspot_alert is_connecting failed_since_request
is_connect_disabled-hotspot_alert_example =
    is_connect_disabled-hotspot_alert true
      (record Network.initial_state { connect_requested_at = some 10 }) ConnectionMode.initial_state
      refl

-- Release notes.
parse_release_notes_run :
    parse_release_notes "Neu:\n- Fotos \n*  Uhr\n\nDanke"
    ≡ paragraph "Neu:" ∷ list ("Fotos" ∷ "Uhr" ∷ []) ∷ paragraph "Danke" ∷ []
unfolding parse_release_notes note_lines add_lines add_line add_item bullet_item trim trim_start
    trim_end is_space without_return without_returns split
parse_release_notes_run = refl

parse_release_notes-IsMerged_example :
    (flat (parse_release_notes "Neu:\n- Fotos\n- Uhr")
      ≡ pieces_in (note_lines "Neu:\n- Fotos\n- Uhr"))
    × IsMerged (parse_release_notes "Neu:\n- Fotos\n- Uhr")
parse_release_notes-IsMerged_example = parse_release_notes-IsMerged "Neu:\n- Fotos\n- Uhr"
