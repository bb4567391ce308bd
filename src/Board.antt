-- ===== src/Board.antt =====
-- The board's HTTP interface as the dashboard uses it: the endpoints of
-- dashboard-frontend/frontend/src/assets/endpoints/api/frame.ts, and the answers in the types that
-- the thunks declare for them. A field that the code tests for being missing is an `Option`, which
-- is `none` for null and for undefined; the numbers are integers.
use shareframe_board.Common.{ℕ, Bool, Option, List, String}
use shareframe_board.Common.Int.{ℤ}
use shareframe_board.Common.Text.{◌<>◌}
use shareframe_board.SlideshowOperation.{NightStyle}
use shareframe_board.SlideshowStatus.{ShownState}
use shareframe_board.SlideshowImages.{PlaybackMode}
use shareframe_board.ConnectionMode.{ConnectionModeData}
use shareframe_board.Network.{NetworkCredentials}
use shareframe_board.Services.{ServiceStatus}
use shareframe_board.Updates.{Release, UpdateHistoryEntry, UpdateStatus}
use shareframe_board.FrameInfo.{FrameInfo, DisplayStats}
use shareframe_board.DisplayCustomization.{DisplayCustomization}

pub data Endpoint : Type 0 where
  auth_status login logout change_password : Endpoint
  connection_status connection_saved_networks connection_connect connection_forget : Endpoint
  connection_apply connection_mode ap_password : Endpoint
  slideshow slideshow_status slideshow_interval slideshow_night_mode skip_slideshow_image : Endpoint
  show_slideshow_image clear_display slideshow_order slideshow_images : Endpoint
  system_health restart_pi shutdown_pi factory_reset services service_restart : Endpoint
  display_stats display_customization system_info frame_logs send_diagnostics : Endpoint
  latest_release perform_update update_status update_history : Endpoint

abbrev api_base_url : String
api_base_url = "/api"

abbrev frame_base_url : String
frame_base_url = api_base_url <> "/frame"

abbrev system_base_url : String
system_base_url = api_base_url <> "/system"

abbrev auth_base_url : String
auth_base_url = api_base_url <> "/auth"

abbrev connection_base_url : String
connection_base_url = api_base_url <> "/connection"

abbrev services_base_url : String
services_base_url = api_base_url <> "/services"

unfoldable pub url : Endpoint → String
url auth_status = auth_base_url <> "/status"
url login = auth_base_url <> "/login"
url logout = auth_base_url <> "/logout"
url change_password = auth_base_url <> "/change-password"
url connection_status = connection_base_url <> "/status"
url connection_saved_networks = connection_base_url <> "/saved-networks"
url connection_connect = connection_base_url <> "/connect"
url connection_forget = connection_base_url <> "/forget"
url connection_apply = connection_base_url <> "/apply"
url connection_mode = connection_base_url <> "/mode"
url ap_password = connection_base_url <> "/ap-password"
url slideshow = frame_base_url <> "/slideshow"
url slideshow_status = frame_base_url <> "/slideshow/status"
url slideshow_interval = frame_base_url <> "/slideshow/interval"
url slideshow_night_mode = frame_base_url <> "/slideshow/night-mode"
url skip_slideshow_image = frame_base_url <> "/slideshow/skip"
url show_slideshow_image = frame_base_url <> "/slideshow/show"
url clear_display = frame_base_url <> "/clear"
url slideshow_order = frame_base_url <> "/slideshow/order"
url slideshow_images = frame_base_url <> "/slideshow/images"
url services = services_base_url
url service_restart = services_base_url <> "/restart"
url system_health = system_base_url <> "/health"
url restart_pi = system_base_url <> "/restart"
url shutdown_pi = system_base_url <> "/shutdown"
url factory_reset = system_base_url <> "/factory-reset"
url display_stats = frame_base_url <> "/display/stats"
url display_customization = frame_base_url <> "/display/customization"
url system_info = system_base_url <> "/info"
url frame_logs = system_base_url <> "/logs"
url send_diagnostics = system_base_url <> "/diagnostics"
url latest_release = system_base_url <> "/updates/latest"
url perform_update = system_base_url <> "/updates/perform-update"
url update_status = system_base_url <> "/updates/status"
url update_history = system_base_url <> "/updates/history"

pub record NightData : Type 0 where
  pub enabled : Bool
  pub start_hour : ℤ
  pub end_hour : ℤ
  pub interval_seconds : ℤ
  pub style : NightStyle
  pub active_now : Bool

pub record ShownData : Type 0 where
  pub seq : ℤ
  pub state : ShownState
  pub image_id : ℤ
  pub sender : Option String

pub record StatusData : Type 0 where
  pub active : Bool
  pub loop_started : Option Bool
  pub refreshing : Option Bool
  pub image_count : Option ℤ
  pub seconds_until_next : Option ℤ
  pub interval_seconds : Option ℤ
  pub night_mode : Option NightData
  pub now_showing : Option ShownData

pub record SlideshowImagePayload : Type 0 where
  pub id : ℤ
  pub sender : String
  pub received_at : ℤ
  pub expires_at : ℤ
  pub width : ℤ
  pub height : ℤ
  pub size_bytes : ℤ
  pub position : ℤ

pub record SlideshowImagesPayload : Type 0 where
  pub mode : PlaybackMode
  pub custom_order : List ℤ
  pub current_image_id : ℤ
  pub images : List SlideshowImagePayload

pub record LogsPayload : Type 0 where
  pub service_name : Option String
  pub logs : Option String

-- The `data` of an answer.
abbrev pub DataOf : Endpoint → Type 0
DataOf auth_status = Option Bool
DataOf connection_status = String
DataOf connection_saved_networks = List String
DataOf connection_mode = ConnectionModeData
DataOf slideshow_status = StatusData
DataOf slideshow_images = SlideshowImagesPayload
DataOf system_health = Option Bool
DataOf services = Option (List ServiceStatus)
DataOf display_stats = DisplayStats
DataOf display_customization = DisplayCustomization
DataOf system_info = FrameInfo
DataOf frame_logs = LogsPayload
DataOf latest_release = Release
DataOf update_status = UpdateStatus
DataOf update_history = List UpdateHistoryEntry
DataOf _ = Unit

-- `IServerResponse` of types.app.ts, with the type of its data. (`content` is the field `data`.)
pub record ServerResponse (D : Type 0) : Type 0 where
  pub success : Bool
  pub message : Option String
  pub content : Option D

-- What is thrown: an `Error` with its message, or a value that is none.
pub data Thrown : Type 0 where
  error_of : String → Thrown
  other : Thrown

-- What `response.json()` comes to.
pub data Body (D : Type 0) : Type 0 where
  malformed : Thrown → Body D
  json : ServerResponse D → Body D

-- A response: its status, and its body, which may be no JSON.
pub record Response (D : Type 0) : Type 0 where
  pub status : ℕ
  pub body : Body D

-- How a fetch ends.
pub data Reply (D : Type 0) : Type 0 where
  failed : Thrown → Reply D
  answered : Response D → Reply D

-- The content of a request; `query_of` holds the parameters that are appended to the URL.
pub data RequestBody : Type 0 where
  empty_body : RequestBody
  interval_body : ℤ → RequestBody
  night_mode_body : Bool → ℤ → ℤ → ℤ → NightStyle → RequestBody
  image_body : ℤ → RequestBody
  action_body : String → RequestBody
  order_body : PlaybackMode → Option (List ℤ) → RequestBody
  otp_body : String → RequestBody
  password_body : String → RequestBody
  change_password_body : String → String → RequestBody
  credentials_body : NetworkCredentials → RequestBody
  ssid_body service_body : String → RequestBody
  show_sender_body : Bool → RequestBody
  query_of : List (String × String) → RequestBody

pub data Method : Type 0 where
  get post : Method

pub record Request : Type 0 where
  pub endpoint : Endpoint
  pub method : Method
  pub content : RequestBody
  pub timeout : ℕ
