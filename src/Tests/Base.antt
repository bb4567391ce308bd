-- ===== src/Tests/Base.antt =====
-- A board for the tests: it answers some requests, and is slow or out of reach on demand.
use shareframe_board.Common.{ℕ, true, none, some, List, []}
use shareframe_board.Common.Text.{show}
use shareframe_board.Common.Int.{pos}
use shareframe_board.Board.{
  Endpoint, slideshow_status, slideshow_interval, skip_slideshow_image, slideshow, DataOf,
  ServerResponse, StatusData, json, Reply, failed, answered, error_of,
}
use shareframe_board.Store.{Action, initial_root}
use shareframe_board.Thunk.{Env, World}

abbrev pub accepted : {D : Type 0} → ServerResponse D
accepted = record { success = true; message = none; content = none }

abbrev pub playing : StatusData
playing = record {
  active = true;
  loop_started = some true;
  refreshing = none;
  image_count = some (pos 4);
  seconds_until_next = none;
  interval_seconds = some (pos 1800);
  night_mode = none;
  now_showing = none;
}

abbrev pub answer : (e : Endpoint) → Reply (DataOf e)
answer slideshow_status = answered (record {
  status = 200;
  body = json (record { success = true; message = none; content = some playing });
})
answer slideshow_interval = answered (record { status = 200; body = json accepted })
answer slideshow = answered (record { status = 200; body = json accepted })
answer skip_slideshow_image = answered (record { status = 409; body = json accepted })
answer _ = failed (error_of "Failed to fetch")

abbrev pub board : ℕ → List Action → Env
board latency meanwhile = record {
  reply = λ n r. answer r.endpoint;
  latency = λ n. latency;
  others = λ n. meanwhile;
  fresh_uuid = λ n. show n;
  abort_error = error_of "signal is aborted without reason";
  on_start = λ c. [];
}

abbrev pub at_rest : World
at_rest = record {
  state = initial_root 1000;
  clock = 1000;
  waits = 0;
  uuids = 0;
  log = [];
  requests = [];
  calls = [];
  paths = [];
  reloads = 0;
}
