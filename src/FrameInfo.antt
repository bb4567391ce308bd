-- ===== src/FrameInfo.antt =====
-- dashboard-frontend/frontend/src/store/frameInfo/frameInfo.Slice.tsx and
-- store/displayStats/displayStats.Slice.tsx: what the board tells of itself and of its display, as
-- state and reducers. The thunks of the files are in Thunks/Overviews.
use shareframe_board.Common.{Bool, true, false, Option, none, some, String}
use shareframe_board.Async.{Stage, pending, fulfilled, rejected}

-- A number as JSON writes it.
pub record Number : Type 0 where
  pub literal : String

pub record FrameInfo : Type 0 where
  pub serial_number : String
  pub version : String
  pub hostname : Option String
  pub kernel : Option String
  pub ip_wlan0 : Option String
  pub ip_usb0 : Option String
  pub time_iso : Option String
  pub uptime_seconds : Option Number
  pub ram_total_bytes : Option Number
  pub ram_available_bytes : Option Number
  pub storage_data_total_bytes : Option Number
  pub storage_data_free_bytes : Option Number
  pub storage_root_total_bytes : Option Number
  pub storage_root_free_bytes : Option Number
  pub cpu_temp_celsius : Option Number
  pub load_1 : Option Number
  pub load_5 : Option Number
  pub load_15 : Option Number
  pub cpu_usage_percent : Option Number
  pub wlan_ssid : Option String
  pub wlan_signal_dbm : Option Number
  pub wlan_connected : Option Bool
  pub boot_count : Option Number
  pub host_model : Option String
  pub os_sha : Option String
  pub app_sha : Option String
  pub boot_slot : Option String
  pub slot_trial : Option Bool
  pub health_state : Option String
  pub cpu_freq_mhz : Option Number
  pub wifi_mode : Option String
  pub wifi_ssid : Option String
  pub serial : Option String

pub record FrameInfoState : Type 0 where
  pub frame_info : Option FrameInfo
  pub loading : Bool

abbrev pub no_info : FrameInfoState
no_info = record { frame_info = none; loading = false }

unfoldable pub frame_info_reducer : FrameInfoState → Stage FrameInfo → FrameInfoState
frame_info_reducer s pending = record s { loading = true }
frame_info_reducer s (fulfilled info) = record s { loading = false; frame_info = some info }
frame_info_reducer s (rejected r) = record s { loading = false }

pub data DisplayHealth : Type 0 where
  ok degraded failed : DisplayHealth

pub record DisplayStats : Type 0 where
  pub epd_refresh_total : Option Number
  pub epd_image_refresh_total : Option Number
  pub epd_clear_total : Option Number
  pub epd_poweron_total : Option Number
  pub epd_refresh_fail_total : Option Number
  pub epd_poweron_fail_total : Option Number
  pub epd_busy_ms_total : Option Number
  pub epd_last_refresh_ms : Option Number
  pub epd_last_refresh_at : Option Number
  pub epd_first_use_at : Option Number
  pub app_boot_total : Option Number
  pub consecutive_failures : Option Number
  pub rated_refreshes : Option Number
  pub wear_percent : Option Number
  pub health : Option DisplayHealth

pub record DisplayStatsState : Type 0 where
  pub display_stats : Option DisplayStats
  pub loading : Bool

abbrev pub no_stats : DisplayStatsState
no_stats = record { display_stats = none; loading = false }

unfoldable pub display_stats_reducer : DisplayStatsState → Stage DisplayStats → DisplayStatsState
display_stats_reducer s pending = record s { loading = true }
display_stats_reducer s (fulfilled stats) = record s { loading = false; display_stats = some stats }
display_stats_reducer s (rejected r) = record s { loading = false }
