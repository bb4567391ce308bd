-- ===== src/Thunks/Power/Reload.antt =====
-- When a restart by piPower.Slice.tsx reloads the page.
use shareframe_board.Common.{
  ℕ, suc, ◌+◌, ◌≤◌, ◌≡◌, refl, sym, ap, ◌∙◌, Bool, true, false, List, ◌∷◌, String, leb, arith,
  if◌then◌else◌,
}
use shareframe_board.Async.{Stage, Settled, returned, pending}
use shareframe_board.Snackbars.{add_loading_snackbar}
use shareframe_board.LoadingWall.{loading_wall_visible}
use shareframe_board.Board.{Endpoint, Reply, failed, answered, malformed, json}
use shareframe_board.Store.{Action, root_reducer}
use shareframe_board.Thunk.{
  Env, World, Ending, finished, run, apply, send, delivered, try_catch, elapse, ◌>>=◌,
}
use shareframe_board.Thunk.Laws.{run-bind, continue, run-finally, run-try_catch, conclude, recover}
use shareframe_board.Thunk.Clock.{clock-run}
use shareframe_board.Thunk.Toolkit.{Toolkit}
use shareframe_board.Thunks.Power.{
  Target, PowerAnswer, accepted, rejected, up, down, power_request, send_power_command, poll_health,
  home_url, restart_wall, power_failed, power_last, reload_when, restart_accepted, restart_answered,
  restart_attempt, restart_creator, restart_pi,
}
use shareframe_board.Thunks.Power.Kept.{poll_health-keep}
use shareframe_board.Thunks.Power.Polling.{all_seen, poll_health_lem}

-- A command is accepted unless the board says in so many words that it is not.
abbrev pub power_answer : {D : Type 0} → Reply D → PowerAnswer
power_answer (failed e) = accepted
power_answer (answered response) = elim response.body [
  | malformed e ↦ accepted
  | json payload ↦ if payload.success then accepted else rejected
]

run-send_power_command :
    (env : Env) (e : Endpoint) (w : World)
    → run env (send_power_command e) w ≡ (
      send env (power_request e) w,
      finished (power_answer (delivered env (power_request e) w.waits)),
    )
unfolding send_power_command run
run-send_power_command env e w = ground arith

-- The world in which an accepted restart begins to wait.
accepted_world : World → World
accepted_world w =
    apply (Action.loading_wall (loading_wall_visible restart_wall))
      (record w { paths = home_url ∷ w.paths })

-- How a restart ends: with a reload of the page after an answer that the board is up, or without
-- one after three minutes, and at the home page in both cases.
abbrev pub RestartSeen : Env → World → World → Type 0
RestartSeen env w u =
    (b : Bool) × (u.reloads ≡ (if b then suc w.reloads else w.reloads))
    × (u.paths ≡ home_url ∷ w.paths)
    × ((if b then all_seen env up 1 u.waits else leb (w.clock + 180000) u.clock) ≡ true)

abbrev RestartEnd : Env → World → World × Ending (Settled (Unit {0})) → Type 0
RestartEnd env w r = (u : World) × (r ≡ (u, finished (returned tt))) × RestartSeen env w u

later : (c d e : ℕ) → c ≤ d → leb (d + 180000) e ≡ true → leb (c + 180000) e ≡ true
later c d e le h = ground arith

reload_when_lem :
    (env : Env) (b : Bool) (c : ℕ) (w u : World)
    → u.reloads ≡ w.reloads
    → u.paths ≡ home_url ∷ w.paths
    → w.clock ≤ c
    → (if b then all_seen env up 1 u.waits else leb (c + 180000) u.clock) ≡ true
    → RestartEnd env w (run env (reload_when b) u)
unfolding reload_when run
reload_when_lem env true c w u reloads paths from found =
    (record u { reloads = suc u.reloads }, refl, (true, ap suc reloads, paths, found))
reload_when_lem env false c w u reloads paths from found =
    (u, refl, (false, reloads, paths, later w.clock c u.clock from found))

abbrev trace : World → ℕ × List String
trace w = (w.reloads, w.paths)

kept_poll :
    (env : Env) (target : Target) (max_wait consecutive : ℕ) (w u : World) (b : Bool)
    → run env (poll_health target max_wait consecutive) w ≡ (u, finished b)
    → (trace u ≡ trace w) × (w.clock ≤ u.clock)
unfolding send elapse
kept_poll env target max_wait consecutive w u b ends = (
  sym (ap (λ r. trace r.0) ends)
      ∙ poll_health-keep env trace (λ x. refl) (λ x. refl) target max_wait consecutive w,
  rw (sym (ap (λ r. r.0.clock) ends)) (clock-run env (poll_health target max_wait consecutive) w),
)

restart_accepted_lem : (env : Env) (w : World) → RestartEnd env w (run env restart_accepted w)
unfolding restart_accepted run accepted_world apply
restart_accepted_lem env w =
    let v = accepted_world w in
    let (a, h, ends, _) = poll_health_lem env down 60000 1 v in
    let (u, b, ends', found) = poll_health_lem env up 180000 1 a in
    let (same, from) = kept_poll env down 60000 1 v a h ends in
    let (same', _) = kept_poll env up 180000 1 a u b ends' in
    let kept = same' ∙ same in
    let all : run env restart_accepted w ≡ run env (reload_when b) u =
      run-bind env (poll_health down 60000 1) (λ _. poll_health up 180000 1 >>= reload_when) v
      ∙ ap (continue env (λ _. poll_health up 180000 1 >>= reload_when)) ends
      ∙ run-bind env (poll_health up 180000 1) reload_when a
      ∙ ap (continue env reload_when) ends' in
    rw all (reload_when_lem env b a.clock w u (ap (λ p. p.0) kept) (ap (λ p. p.1) kept) from found)

-- A restart, seen from the answer to its command on.
abbrev restart_rest :
    Env → String → World × Ending (Settled (Unit {0})) → World × Ending (Settled (Unit {0}))
restart_rest env id r =
    conclude env (power_last id)
      (recover env (power_failed "Bilderrahmen konnte nicht neu gestartet werden") r)

-- The world in which a restart sends its command.
abbrev pub restart_asked : Env → World → World
restart_asked env w =
    let id = env.fresh_uuid w.uuids in
    apply (Action.snackbars (add_loading_snackbar id "Bilderrahmen wird neu gestartet"))
      (record w { uuids = suc w.uuids })

run-restart_creator :
    (env : Env) (w : World)
    → let r = power_request Endpoint.restart_pi in
      run env restart_creator w
      ≡ restart_rest env (env.fresh_uuid w.uuids) (
          run env
            (restart_answered (power_answer (delivered env r w.waits)))
            (send env r (restart_asked env w)))
unfolding restart_creator restart_attempt run apply
run-restart_creator env w =
    let id = env.fresh_uuid w.uuids in
    let v = restart_asked env w in
    let rest = send_power_command Endpoint.restart_pi >>= restart_answered in
    let catch = power_failed "Bilderrahmen konnte nicht neu gestartet werden" in
    run-finally env (try_catch rest catch) (power_last id) v
    ∙ ap (conclude env (power_last id)) (
        run-try_catch env rest catch v
        ∙ ap (recover env catch) (
            run-bind env (send_power_command Endpoint.restart_pi) restart_answered v
            ∙ ap (continue env restart_answered)
                (run-send_power_command env Endpoint.restart_pi v)))

-- What a restart leaves, if it was asked for in `w` and answered in `v`.
abbrev pub RestartLeaves : Env → World → World → PowerAnswer → World → Type 0
RestartLeaves env w v rejected u =
    (u.reloads ≡ w.reloads) × (u.paths ≡ w.paths) × (u.state.loading_wall ≡ v.state.loading_wall)
RestartLeaves env w v accepted u = RestartSeen env v u

restart_rest_lem :
    (env : Env) (id : String) (answer : PowerAnswer) (w v : World)
    → v.reloads ≡ w.reloads
    → v.paths ≡ w.paths
    → RestartLeaves env w v answer (restart_rest env id (run env (restart_answered answer) v)).0
unfolding restart_answered run apply root_reducer
restart_rest_lem env id rejected w v reloads paths = (reloads, paths, refl)
restart_rest_lem env id accepted w v reloads paths =
    let (u, ends, seen) = restart_accepted_lem env v in rw ends seen

RestartLeaves-apply :
    (env : Env) (answer : PowerAnswer) (w v u : World) (last : Stage (Unit {0}))
    → RestartLeaves env w v answer u
    → RestartLeaves env w v answer (apply (Action.pi_power last) u)
unfolding apply root_reducer
RestartLeaves-apply env rejected w v u last h = h
RestartLeaves-apply env accepted w v u last h = h

-- A restart that the board refuses leaves the page, the path and the loading wall alone. Any other
-- restart goes to the home page and polls: it reloads the page once, and only after an answer that
-- the board is up, or it gives up after at least three minutes without a reload.
pub restart_pi-power_answer :
    (toolkit : Toolkit) (env : Env) (w : World)
    → let r = power_request Endpoint.restart_pi in
      let v = send env r (restart_asked env (apply (Action.pi_power pending) w)) in
      RestartLeaves env w v
        (power_answer (delivered env r w.waits))
        (run env (restart_pi toolkit) w).0
unfolding restart_pi send elapse apply
restart_pi-power_answer toolkit env w =
    let r = power_request Endpoint.restart_pi in
    let w' = apply (Action.pi_power pending) w in
    let v = send env r (restart_asked env w') in
    rw (toolkit.course env Action.pi_power restart_creator w, run-restart_creator env w')
      (RestartLeaves-apply env (power_answer (delivered env r w.waits)) w v _ _
        (restart_rest_lem env _ (power_answer (delivered env r w.waits)) w v refl refl))
