-- ===== src/Thunks/FrameLogs/Cached.antt =====
-- The cache of frameLogs.Slice.tsx: when a fetch of the logs asks the board, and what it leaves.
use shareframe_board.Common.{
  ◌<◌, ◌*◌, ℕ, ◌+◌, ◌≡◌, refl, Bool, true, false, Option, none, some, ◌∷◌, String, ltb, ◌==◌,
  is_some, arith, eq_refl,
}
use shareframe_board.Async.{pending}
use shareframe_board.FrameLogs.{
  LogsRequestParams, LogsData, LogsState, cached_logs, same_params, same_text, same_number,
  same_flag, is_recent, cache_duration, fetch_frame_logs, frame_logs_reducer, service_text,
}
use shareframe_board.Board.{Reply, failed, answered, malformed, json, ServerResponse, LogsPayload}
use shareframe_board.Store.{Action, root_reducer}
use shareframe_board.Thunk.{Env, World, run, apply, delivered}
use shareframe_board.Thunk.Waiting.{until_wait}
use shareframe_board.Thunk.Toolkit.{Toolkit}
use shareframe_board.Thunks.FrameLogs.{
  logs_request, logs_of, logs_attempt, fetch_logs_creator, fetch_frame_logs_thunk,
}

-- The answer of a board that grants the request.
abbrev pub granted_answer : {D : Type 0} → Reply D → Option (ServerResponse D)
granted_answer (failed e) = none
granted_answer (answered response) = elim response.body [
  | malformed e ↦ none
  | json payload ↦ elim payload.success [ false ↦ none | true ↦ some payload ]
]

-- The logs after a request made at the time `asked` and answered at the time `now`.
abbrev pub AreLogged :
    ℕ → ℕ → LogsRequestParams → LogsState → Option (ServerResponse LogsPayload) → LogsState → Type 0
AreLogged asked now params old none s =
    (s.logs_data ≡ old.logs_data)
    × (s.last_fetch_timestamp ≡ old.last_fetch_timestamp)
    × (is_some s.error ≡ true)
AreLogged asked now params old (some payload) s =
    (s.logs_data ≡ some (logs_of asked payload))
    × (s.last_fetch_timestamp ≡ some now)
    × (s.cached_params ≡ some params)
    × (s.error ≡ none)

-- The last fetch that succeeded, from the board or from the cache, had these parameters and ended
-- less than thirty seconds ago.
abbrev pub AreFresh : ℕ → LogsRequestParams → Option LogsRequestParams → Option ℕ → Type 0
AreFresh now params (some p) (some t) = (same_params p params ≡ true) × (now < t + 30 * 1000)
AreFresh now params _ _ = ⊥

-- What a fetch does, by the logs in the cache.
abbrev pub IsServed : Env → LogsRequestParams → World → World → Option LogsData → World → Type 0
IsServed env params w v (some logs) u =
    AreFresh w.clock params w.state.frame_logs.cached_params w.state.frame_logs.last_fetch_timestamp
    × (u.requests ≡ w.requests)
    × (u.clock ≡ w.clock)
    × (u.state.frame_logs.logs_data ≡ some logs)
IsServed env params w v none u =
    (u.requests ≡ logs_request params ∷ w.requests)
    × AreLogged w.clock v.clock params v.state.frame_logs
        (granted_answer (delivered env (logs_request params) w.waits)) u.state.frame_logs

same_texts : (t : Option String) → same_text t t ≡ true
same_texts none = refl
same_texts (some t) = eq_refl t

same_numbers : (n : Option ℕ) → same_number n n ≡ true
same_numbers n = ground arith

same_flags : (b : Option Bool) → same_flag b b ≡ true
same_flags b = ground arith

-- Parameters agree with themselves.
same_params-same : (params : LogsRequestParams) → same_params params params ≡ true
unfolding same_params
same_params-same params =
    rw
      (
        eq_refl (service_text params.service_name),
        same_texts params.since_timestamp,
        same_numbers params.lines,
        same_flags params.follow,
      )
      refl

module _ (toolkit : Toolkit) (env : Env) (params : LogsRequestParams) (w : World) where
  abbrev asking : World
  asking =
      until_wait env (fetch_logs_creator params)
        (apply (Action.frame_logs (fetch_frame_logs params pending)) w)

  -- Logs that come from the cache count as fetched at that time: they are still good for the same
  -- parameters at any time within thirty seconds of it, however old they are.
  pub fetch_frame_logs_thunk-renewed :
      (logs : LogsData) (d : ℕ)
      → cached_logs w.clock params w.state.frame_logs ≡ some logs
      → (w.clock == 0) ≡ false
      → ltb d cache_duration ≡ true
      → let u = run env (fetch_frame_logs_thunk toolkit params) w in
        cached_logs (w.clock + d) params u.0.state.frame_logs ≡ some logs
  unfolding fetch_frame_logs_thunk fetch_logs_creator logs_attempt run apply root_reducer
      frame_logs_reducer cached_logs is_recent
  fetch_frame_logs_thunk-renewed logs d h z l =
      rw
        (toolkit.course env (λ x. Action.frame_logs (fetch_frame_logs params x))
          (fetch_logs_creator params) w)
        (ground (arith, same_params-same params))
