-- ===== src/Interleaving/Sound.antt =====
-- The invariant of the dashboard with many thunks under way: the flags of the operations of
-- slideshowOperation.Slice.tsx and the programs that hold them.
use shareframe_board.Common.{
  ◌≡◌, refl, sym, ◌∙◌, subst, inl, inr, Bool, true, false, true-false, Bool-cases, List, ◌∷◌, ◌++◌,
  All,
}
use shareframe_board.SlideshowOperation.{SlideshowOperationState, is_busy, initial_state}
use shareframe_board.Store.{Action, root_reducer}
use shareframe_board.Thunk.{dispatching, fetching, sleeping, ret, Env, World, apply}
use shareframe_board.Thunk.Waiting.{until_wait, rest_of}
use shareframe_board.Thunks.Slideshow.Common.{unless_state}
use shareframe_board.Thunks.Slideshow.Guard.{drawn}
use shareframe_board.Common.{String}
use shareframe_board.Thunks.Slideshow.Operations.{Operation, thunk_of}
use shareframe_board.Interleaving.{
  IsPlain, System, system, ◌⟶◌, operate, answer, wake, react, tick, IsReachable, opened, later,
}
use shareframe_board.Interleaving.Phases.{
  Flag, toggling, clearing, skipping, showing, updating, up, Phase, idle, holding, released,
}
use shareframe_board.Interleaving.Flags.{
  Course, NoneRaised, AllDown, raising, raising-up, root_reducer-Course, RaisesNone-NoneRaised,
  is_busy-AllDown,
}
use shareframe_board.Interleaving.Segments.{Along-until_wait}
use shareframe_board.Interleaving.Ends.{Ends}
use shareframe_board.Interleaving.Operations.{
  body_of, flag_raised, guarded, body-Ends, RaisesFirst, body-RaisesFirst,
}
use shareframe_board.Interleaving.Owners.{
  Program, HasBegun, IsTame, IsOwned, All-middle, All-replace, IsOwned-replace,
}

abbrev pub op : World → SlideshowOperationState
op w = w.state.slideshow_operation

-- At most one flag is up, a waiting program will lower it, and no waiting program raises another.
pub record IsSound (s : System) : Type 0 where
  pub one : (f g : Flag) → up f (op s.world) ≡ true → up g (op s.world) ≡ true → f ≡ g
  pub owned : (f : Flag) → up f (op s.world) ≡ true → IsOwned f s.waiting
  pub tame : All IsTame s.waiting

was_up : (s t : SlideshowOperationState) (f : Flag) → NoneRaised s t → up f t ≡ true → up f s ≡ true
was_up s t f n h = elim (Bool-cases (up f s)) [
  | inl e ↦ e
  | inr e ↦ absurd (true-false (sym h ∙ n f e))
]

-- What is left of a program at its next wait, and the flags there.
abbrev Resumed : Env → Program → World → Phase → Type 0
Resumed env p w g0 =
    (g : Phase) × Course (op w) g0 g (op (until_wait env p w)) × Ends (rest_of env p w) g

resumed :
    (env : Env)
    → IsPlain env
    → (p : Program) (w : World) (g0 : Phase) → HasBegun g0
    → Ends p g0
    → Resumed env p w g0
resumed env plain p w g0 b h =
    Along-until_wait (Course (op w) g0) (root_reducer-Course (op w) g0) env plain _ _ g0 p w
      (start g0 b) h
  where
    start : (g0 : Phase) → HasBegun g0 → Course (op w) g0 g0 (op w)
    start idle b = elim b [ ]
    start (holding f) b = ((λ f z. z), refl)
    start released b = ((λ f z. z), tt)

begun : (s0 s : SlideshowOperationState) (g0 g : Phase) → Course s0 g0 g s → HasBegun g
begun s0 s g0 (holding f) h = tt
begun s0 s g0 released h = tt
begun s0 s (holding f) idle h = elim h.1 [ ]
begun s0 s released idle h = elim h.1 [ ]
begun s0 s idle idle h = elim h.1 [ ]

-- While the flag that a program holds stays up, the program still holds it.
still_held :
    (s0 s : SlideshowOperationState) (f : Flag) (g : Phase) (p : Program)
    → Course s0 (holding f) g s
    → up f s ≡ true
    → Ends p g
    → Ends p (holding f)
still_held s0 s f idle p c u h = elim c.1 [ ]
still_held s0 s f (holding k) p c u h = subst (λ x. Ends p (holding x)) (sym c.1) h
still_held s0 s f released p c u h = absurd (true-false (sym u ∙ c.1))

resume-IsSound :
    (env : Env)
    → IsPlain env
    → (p q : Program) (w : World) (before after : List Program)
    → ((g : Phase) → Ends q g → Ends p g)
    → IsSound (system w (before ++ q ∷ after))
    → IsSound (system (until_wait env p w) (before ++ rest_of env p w ∷ after))
resume-IsSound env plain p q w before after same s =
    let (g0, b, h) = All-middle IsTame before after q s.tame in
    let (g, c, e) = resumed env plain p w g0 b (same g0 h) in
    record {
      one = λ f k uf uk. s.one f k (was_up _ _ f c.0 uf) (was_up _ _ k c.0 uk);
      owned = λ f u.
          IsOwned-replace f before after q (rest_of env p w) (s.owned f (was_up _ _ f c.0 u)) λ h'.
            let (g', c', e') = resumed env plain p w (holding f) tt (same (holding f) h') in
            still_held _ _ f g' (rest_of env p w) c' u e';
      tame = All-replace IsTame before after q (rest_of env p w) s.tame (g, begun _ _ g0 g c, e);
    }

raised_held :
    (f : Flag) (q : Program)
    → Ends (dispatching (Action.slideshow_operation (raising f)) q) idle
    → Ends q (holding f)
raised_held toggling q h = h
raised_held clearing q h = h
raised_held skipping q h = h
raised_held showing q h = h
raised_held updating q h = h

-- A program that raises its flag first, started while all flags are down.
abbrev Started : Env → Program → World → Flag → Type 0
Started env p w f =
    ((g : Flag) → up g (op (until_wait env p w)) ≡ true → f ≡ g)
    × (up f (op (until_wait env p w)) ≡ true → Ends (rest_of env p w) (holding f))
    × IsTame (rest_of env p w)

started :
    (env : Env)
    → IsPlain env
    → (f : Flag) (p : Program) (w : World) → RaisesFirst f p
    → Ends p idle
    → AllDown (op w)
    → Started env p w f
unfolding until_wait rest_of apply root_reducer
started env plain f (dispatching a q) w e h d =
    let (g, c, k) = resumed env plain q (apply a w) (holding f) tt (held f a q e h) in
    (
      (λ g' u.
          raising-up w.clock (op w) f g' d
            (subst (λ b. up g' (op (apply b w)) ≡ true) e (was_up _ _ g' c.0 u))),
      (λ u. still_held _ _ f g (rest_of env q (apply a w)) c u k),
      (g, begun _ _ (holding f) g c, k),
    )
  where
    held :
        (f : Flag) (a : Action) (q : Program)
        → a ≡ Action.slideshow_operation (raising f)
        → Ends (dispatching a q) idle
        → Ends q (holding f)
    held f a q e h = raised_held f q (subst (λ b. Ends (dispatching b q) idle) e h)
started env plain f _ w e h d = elim e [ ]

refused : (w : World) (ps : List Program) → IsSound (system w ps) → IsSound (system w (ret tt ∷ ps))
refused w ps s = record {
  one = s.one;
  owned = λ f u. inr (s.owned f u);
  tame = ((released, tt, tt), s.tame);
}

accepted :
    (env : Env) (p : Program) (w : World) (f : Flag) (ps : List Program)
    → All IsTame ps
    → Started env p w f
    → IsSound (system (until_wait env p w) (rest_of env p w ∷ ps))
accepted env p w f ps tame (only, own, t) = record {
  one = λ g k ug uk. sym (only g ug) ∙ only k uk;
  owned = λ g u. inl (
      subst (λ x. up x (op (until_wait env p w)) ≡ true → Ends (rest_of env p w) (holding x))
        (only g u) own u);
  tame = (t, tame);
}

-- The guard turns an operation away, or lets it in.
module _ (env : Env) (p : String → Program) (w : World) where
  turned_away : is_busy (op w) ≡ true → until_wait env (unless_state is_busy p) w ≡ w
  unfolding until_wait
  turned_away h = rw (h, until_wait)

  turned_away_rest : is_busy (op w) ≡ true → rest_of env (unless_state is_busy p) w ≡ ret tt
  unfolding rest_of
  turned_away_rest h = rw (h, rest_of)

  let_in :
      is_busy (op w) ≡ false
      → until_wait env (unless_state is_busy p) w
        ≡ until_wait env (p (env.fresh_uuid w.uuids)) (drawn w)
  unfolding until_wait
  let_in h = rw (h, until_wait)

  let_in_rest :
      is_busy (op w) ≡ false
      → rest_of env (unless_state is_busy p) w ≡ rest_of env (p (env.fresh_uuid w.uuids)) (drawn w)
  unfolding rest_of
  let_in_rest h = rw (h, rest_of)

operate-IsSound :
    (env : Env)
    → IsPlain env
    → (o : Operation) (w : World) (ps : List Program) → IsSound (system w ps)
    → IsSound (system (until_wait env (thunk_of o) w) (rest_of env (thunk_of o) w ∷ ps))
operate-IsSound env plain o w ps s = rw (guarded o) (go (is_busy (op w)) refl)
  where
    go :
        (b : Bool)
        → is_busy (op w) ≡ b
        → IsSound (
            system
              (until_wait env (unless_state is_busy (body_of o)) w)
              (rest_of env (unless_state is_busy (body_of o)) w ∷ ps))
    go true q =
        rw (turned_away env (body_of o) w q, turned_away_rest env (body_of o) w q) (refused w ps s)
    go false q =
        rw (let_in env (body_of o) w q, let_in_rest env (body_of o) w q)
          (accepted env (body_of o (env.fresh_uuid w.uuids)) (drawn w) (flag_raised o) ps s.tame (
            started env plain (flag_raised o) (body_of o (env.fresh_uuid w.uuids)) (drawn w)
              (body-RaisesFirst o _) (body-Ends o _) (is_busy-AllDown (op w) q)))

initial_down : (w : World) → op w ≡ initial_state → AllDown (op w)
initial_down w h f = subst (λ x. up f x ≡ false) (sym h) (down f)
  where
    down : (f : Flag) → up f initial_state ≡ false
    down toggling = refl
    down clearing = refl
    down skipping = refl
    down showing = refl
    down updating = refl

step-IsSound : {s t : System} → s ⟶ t → IsSound s → IsSound t
unfolding apply
step-IsSound (operate env h o w ps) s = operate-IsSound env h o w ps s
step-IsSound (answer env h r k x w before after) s =
    resume-IsSound env h (k x) (fetching r k) w before after (λ g e. e x) s
step-IsSound (wake env h n p w before after) s =
    resume-IsSound env h p (sleeping n p) w before after (λ g e. e) s
step-IsSound (react a h w ps) s = record {
  one = λ f k uf uk.
      s.one f k (was_up _ _ f (RaisesNone-NoneRaised w.clock w.state a h) uf)
        (was_up _ _ k (RaisesNone-NoneRaised w.clock w.state a h) uk);
  owned = λ f u. s.owned f (was_up _ _ f (RaisesNone-NoneRaised w.clock w.state a h) u);
  tame = s.tame;
}
step-IsSound (tick d w ps) s = record { one = s.one; owned = s.owned; tame = s.tame }

pub reachable-IsSound : {s : System} → IsReachable s → IsSound s
reachable-IsSound (opened w h) = record {
  one = λ f g u _. absurd (true-false (sym u ∙ initial_down w h f));
  owned = λ f u. absurd (true-false (sym u ∙ initial_down w h f));
  tame = tt;
}
reachable-IsSound (later r t) = step-IsSound t (reachable-IsSound r)
