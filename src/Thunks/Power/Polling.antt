-- ===== src/Thunks/Power/Polling.antt =====
-- The loop of `pollHealth` of piPower.Slice.tsx: its fuel is enough, and what it has seen when it
-- returns true.
use shareframe_board.Common.{
  ℕ, zero, suc, ◌+◌, ◌-◌, ◌*◌, ◌≤◌, ◌≡◌, refl, sym, ap, ◌∙◌, ◌&&◌, Bool, true, false, Option, ltb,
  leb, arith, Bool-cases, inl, inr, ge→ltb, leb→le, if◌then◌else◌,
}
use shareframe_board.Board.{Reply, failed, answered, malformed, json}
use shareframe_board.Thunk.{Env, World, Ending, finished, run, send, delivered, elapse}
use shareframe_board.Thunks.Power.{
  Target, hits, is_ok, running_in, is_reachable, streak_after, poll_loop, poll_health, poll_rounds,
  health_interval, health_request,
}

-- Whether an answer says that the board is up.
abbrev pub running_by : Reply (Option Bool) → Bool
running_by (failed e) = false
running_by (answered response) =
    if is_ok response
    then elim response.body [ malformed e ↦ false | json payload ↦ running_in payload ]
    else false

-- Whether the board is up, as far as the dashboard learns from its n-th wait.
abbrev pub probe : Env → ℕ → Bool
probe env n = running_by (delivered env health_request n)

run-is_reachable :
    (env : Env) (w : World)
    → run env is_reachable w ≡ (send env health_request w, finished (probe env w.waits))
unfolding is_reachable run
run-is_reachable env w = ground arith

-- The world after the delay between two rounds.
abbrev pub rested : Env → World → World
rested env w = elapse env (health_interval + env.latency w.waits) w

-- Whether the last `k` of the loop's answers before the n-th wait were what is waited for. (Each
-- round of the loop waits twice, for an answer and between two rounds.)
abbrev pub all_seen : Env → Target → ℕ → ℕ → Bool
all_seen env target zero n = true
all_seen env target (suc k) n = hits target (probe env (n - 1)) && all_seen env target k (n - 2)

abbrev pub PollEnd : Env → Target → ℕ → ℕ → ℕ → World × Ending Bool → Type 0
PollEnd env target max_wait consecutive start r =
    (u : World) × (b : Bool) × (r ≡ (u, finished b))
    × ((if b then all_seen env target consecutive u.waits else leb (start + max_wait) u.clock)
        ≡ true)

pub if_true : {A : Type 0} {b : Bool} → b ≡ true → (x y : A) → (if b then x else y) ≡ x
if_true h x y = rw h

pub if_false : {A : Type 0} {b : Bool} → b ≡ false → (x y : A) → (if b then x else y) ≡ y
if_false h x y = rw h

ltb_false→le : (a b : ℕ) → ltb a b ≡ false → b ≤ a
ltb_false→le a b h = ground arith

clock-rested :
    (env : Env) (w : World)
    → w.clock + health_interval ≤ (rested env (send env health_request w)).clock
unfolding send elapse
clock-rested env w = omega arith

add_suc : (m n : ℕ) → suc m + n ≡ suc (m + n)
add_suc m n = omega arith

module _ (env : Env) (target : Target) (max_wait consecutive start : ℕ) where
  -- One round of the loop.
  pub poll_early :
      (fuel streak : ℕ) (w : World)
      → ltb (w.clock - start) max_wait ≡ true
      → let streak' = streak_after (hits target (probe env w.waits)) streak in
        let v = send env health_request w in
        run env (poll_loop (suc fuel) target max_wait consecutive start streak) w ≡ (
          if leb consecutive streak'
          then (v, finished true)
          else run env (poll_loop fuel target max_wait consecutive start streak') (rested env v))
  unfolding poll_loop is_reachable run
  poll_early fuel streak w early = ground arith

  pub poll_late :
      (fuel streak : ℕ) (w : World)
      → ltb (w.clock - start) max_wait ≡ false
      → run env (poll_loop fuel target max_wait consecutive start streak) w ≡ (w, finished false)
  unfolding run poll_loop
  poll_late zero streak w late = refl
  poll_late (suc fuel) streak w late = rw (late, run)

  pub poll_none :
      (streak : ℕ) (w : World)
      → run env (poll_loop 0 target max_wait consecutive start streak) w ≡ (w, finished false)
  unfolding run poll_loop
  poll_none streak w = refl

  -- More rounds than the wait has room for change nothing.
  poll_enough :
      (fuel extra streak : ℕ) (w : World)
      → max_wait ≤ health_interval * fuel + (w.clock - start)
      → start ≤ w.clock
      → run env (poll_loop (fuel + extra) target max_wait consecutive start streak) w
        ≡ run env (poll_loop fuel target max_wait consecutive start streak) w
  poll_enough zero extra streak w room from =
      poll_late _ streak w (ge→ltb _ _ (omega arith))
      ∙ sym (poll_late zero streak w (ge→ltb _ _ (omega arith)))
  poll_enough (suc fuel) extra streak w room from =
      elim (Bool-cases (ltb (w.clock - start) max_wait)) [
        | inr late ↦ poll_late _ streak w late ∙ sym (poll_late _ streak w late)
        | inl early ↦
            let streak' = streak_after (hits target (probe env w.waits)) streak in
            let v = send env health_request w in
            ap (λ n. run env (poll_loop n target max_wait consecutive start streak) w)
              (add_suc fuel extra)
            ∙ poll_early (fuel + extra) streak w early
            ∙ ap (λ r. if leb consecutive streak' then (v, finished true) else r)
                (poll_enough fuel extra streak' (rested env v) (omega (arith, clock-rested env w))
                  (omega (arith, clock-rested env w)))
            ∙ sym (poll_early fuel streak w early)
      ]

  waits-send : (w : World) → (send env health_request w).waits ≡ suc w.waits
  unfolding send elapse
  waits-send w = refl

  waits-rested : (w : World) → (rested env w).waits ≡ suc w.waits
  unfolding elapse
  waits-rested w = refl

  seen-le : (k m n : ℕ) → k ≤ m → all_seen env target m n ≡ true → all_seen env target k n ≡ true
  seen-le zero m n le h = refl
  seen-le (suc k) zero n le h = ground arith
  seen-le (suc k) (suc m) n le h = ground (arith, seen-le k m (n - 2))

  seen_next :
      (streak n : ℕ) (hit : Bool)
      → all_seen env target streak (n - 1) ≡ true
      → hits target (probe env n) ≡ hit
      → all_seen env target (streak_after hit streak) (suc n) ≡ true
  seen_next streak n false before now = refl
  seen_next streak n true before now =
      let one : suc n - 1 ≡ n = omega arith in
      let two : suc n - 2 ≡ n - 1 = omega arith in rw (one, two, now) before

  waited : (c : ℕ) → max_wait ≤ c - start → start ≤ c → leb (start + max_wait) c ≡ true
  waited c room from = ground arith

  -- The loop ends in one of two ways: true, if its last answers were all what it waits for, or
  -- false, if it waited as long as it should.
  poll_loop_lem :
      (fuel streak : ℕ) (w : World)
      → max_wait ≤ health_interval * fuel + (w.clock - start)
      → start ≤ w.clock
      → all_seen env target streak (w.waits - 1) ≡ true
      → PollEnd env target max_wait consecutive start
          (run env (poll_loop fuel target max_wait consecutive start streak) w)
  poll_loop_lem zero streak w room from before =
      (w, false, poll_none streak w, waited w.clock (omega arith) from)
  poll_loop_lem (suc fuel) streak w room from before =
      let hit = hits target (probe env w.waits) in
      let streak' = streak_after hit streak in
      let v = send env health_request w in
      let seen : all_seen env target streak' (suc w.waits) ≡ true =
        seen_next streak w.waits hit before refl in
      elim (Bool-cases (ltb (w.clock - start) max_wait)) [
        | inr late ↦ (
          w,
          false,
          poll_late (suc fuel) streak w late,
          waited w.clock (ltb_false→le _ _ late) from,
        )
        | inl early ↦ elim (Bool-cases (leb consecutive streak')) [
          | inl enough ↦ (
            v,
            true,
            poll_early fuel streak w early ∙ if_true enough _ _,
            rw (waits-send w)
                (seen-le consecutive streak' _ (leb→le consecutive streak' enough) seen),
          )
          | inr more ↦
              let at : (rested env v).waits - 1 ≡ suc w.waits =
                omega (arith, waits-send w, waits-rested v) in
              let (u, b, ends, found) =
                poll_loop_lem fuel streak' (rested env v) (omega (arith, clock-rested env w))
                  (omega (arith, clock-rested env w)) (rw at seen) in
              (u, b, poll_early fuel streak w early ∙ if_false more _ _ ∙ ends, found)
        ]
      ]

-- A poll of the board's health ends in one of two ways, and throws nothing: with true, if each of
-- its last `consecutive` answers was what it waits for, or with false, after at least `max_wait`
-- milliseconds.
pub poll_health_lem :
    (env : Env) (target : Target) (max_wait consecutive : ℕ) (w : World)
    → PollEnd env target max_wait consecutive w.clock
        (run env (poll_health target max_wait consecutive) w)
unfolding poll_health run
poll_health_lem env target max_wait consecutive w =
    poll_loop_lem env target max_wait consecutive w.clock (poll_rounds max_wait) 0 w (omega arith)
      (omega arith) refl

-- The rounds of the model are as many as the loop of the source ever makes: more change nothing.
pub poll_health_rounds :
    (env : Env) (target : Target) (max_wait consecutive extra : ℕ) (w : World)
    → run env (poll_loop (poll_rounds max_wait + extra) target max_wait consecutive w.clock 0) w
      ≡ run env (poll_health target max_wait consecutive) w
unfolding poll_health run
poll_health_rounds env target max_wait consecutive extra w =
    poll_enough env target max_wait consecutive w.clock (poll_rounds max_wait) extra 0 w
      (omega arith) (omega arith)
