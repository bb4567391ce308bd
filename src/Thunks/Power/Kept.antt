-- ===== src/Thunks/Power/Kept.antt =====
-- What the loop of `pollHealth` of piPower.Slice.tsx leaves alone.
use shareframe_board.Common.{ℕ, zero, suc, ◌-◌, ◌≡◌, ap, ◌∙◌, ltb, leb, Bool-cases, inl, inr}
use shareframe_board.Thunk.{Env, World, run, send}
use shareframe_board.Thunks.Power.{
  Target, hits, streak_after, poll_loop, poll_health, poll_rounds, health_request,
}
use shareframe_board.Thunks.Power.Polling.{
  probe, rested, poll_early, poll_late, poll_none, if_true, if_false,
}

-- What neither an answer nor a delay changes, a poll does not change.
module _ {B : Type 0} (env : Env) (f : World → B)
    (after_send : (w : World) → f (send env health_request w) ≡ f w)
    (after_rest : (w : World) → f (rested env w) ≡ f w) where
  poll_loop-keep :
      (target : Target) (max_wait consecutive start fuel streak : ℕ) (w : World)
      → f (run env (poll_loop fuel target max_wait consecutive start streak) w).0 ≡ f w
  poll_loop-keep target max_wait consecutive start zero streak w =
      ap (λ r. f r.0) (poll_none env target max_wait consecutive start streak w)
  poll_loop-keep target max_wait consecutive start (suc fuel) streak w =
      let streak' = streak_after (hits target (probe env w.waits)) streak in
      let v = send env health_request w in
      elim (Bool-cases (ltb (w.clock - start) max_wait)) [
        | inr late ↦
            ap (λ r. f r.0)
              (poll_late env target max_wait consecutive start (suc fuel) streak w late)
        | inl early ↦
            let step = poll_early env target max_wait consecutive start fuel streak w early in
            elim (Bool-cases (leb consecutive streak')) [
              | inl enough ↦ ap (λ r. f r.0) (step ∙ if_true enough _ _) ∙ after_send w
              | inr more ↦
                  ap (λ r. f r.0) (step ∙ if_false more _ _)
                  ∙ poll_loop-keep target max_wait consecutive start fuel streak' (rested env v)
                  ∙ after_rest v
                  ∙ after_send w
            ]
      ]

  pub poll_health-keep :
      (target : Target) (max_wait consecutive : ℕ) (w : World)
      → f (run env (poll_health target max_wait consecutive) w).0 ≡ f w
  unfolding poll_health run
  poll_health-keep target max_wait consecutive w =
      poll_loop-keep target max_wait consecutive w.clock (poll_rounds max_wait) 0 w
