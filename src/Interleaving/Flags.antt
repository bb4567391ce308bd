-- ===== src/Interleaving/Flags.antt =====
-- What an action does to the flags of slideshowOperation.Slice.tsx, by the phase of the program that
-- dispatches it.
use shareframe_board.Common.{
  ◌==◌, ◌∙◌, some_inj, none-some, true-false, if◌then◌else◌, ℕ, ◌≡◌, refl, Bool, true, false, some,
  arith, sym, subst,
}
use shareframe_board.SlideshowOperation.{
  SlideshowOperationState, SlideshowOperationAction, set_toggle_status, set_clear_display_status,
  set_skip_image_status, set_show_image_status, set_update_interval_status, reset_operation,
  set_fetch_interval_status, set_display_refresh_interval, set_update_night_mode_status,
  set_fetch_night_mode_status, set_night_mode, set_error, slideshow_operation_reducer,
}
use shareframe_board.Store.{RootState, Action, root_reducer}
use shareframe_board.SlideshowOperation.{is_busy}
use shareframe_board.Interleaving.{RaisesNone}
use shareframe_board.Interleaving.Phases.{
  index, Flag, toggling, clearing, skipping, showing, updating, up, Phase, idle, holding, released,
  set_flag, next_phase,
}

abbrev pub NoneRaised : SlideshowOperationState → SlideshowOperationState → Type 0
NoneRaised before after = (f : Flag) → up f before ≡ false → up f after ≡ false

-- What is left of a flag that was held at the outset.
abbrev pub Held : Phase → Phase → SlideshowOperationState → Type 0
Held (holding f) (holding g) s = f ≡ g
Held (holding f) released s = up f s ≡ false
Held released released s = Unit
Held _ _ s = ⊥

abbrev pub Course : SlideshowOperationState → Phase → Phase → SlideshowOperationState → Type 0
Course s0 g0 g s = NoneRaised s0 s × Held g0 g s

abbrev pub raising : Flag → SlideshowOperationAction
raising toggling = set_toggle_status true
raising clearing = set_clear_display_status true
raising skipping = set_skip_image_status true
raising showing = set_show_image_status true
raising updating = set_update_interval_status true

abbrev lowering : Flag → SlideshowOperationAction
lowering toggling = set_toggle_status false
lowering clearing = set_clear_display_status false
lowering skipping = set_skip_image_status false
lowering showing = set_show_image_status false
lowering updating = set_update_interval_status false

lowering-NoneRaised :
    (now : ℕ) (s : SlideshowOperationState) (f : Flag)
    → NoneRaised s (slideshow_operation_reducer now s (lowering f))
unfolding slideshow_operation_reducer
lowering-NoneRaised now s toggling toggling h = refl
lowering-NoneRaised now s clearing clearing h = refl
lowering-NoneRaised now s skipping skipping h = refl
lowering-NoneRaised now s showing showing h = refl
lowering-NoneRaised now s updating updating h = refl
lowering-NoneRaised now s toggling _ h = ground arith
lowering-NoneRaised now s clearing _ h = ground arith
lowering-NoneRaised now s skipping _ h = ground arith
lowering-NoneRaised now s showing _ h = ground arith
lowering-NoneRaised now s updating _ h = ground arith

NoneRaised-trans :
    {s t u : SlideshowOperationState} → NoneRaised s t → NoneRaised t u → NoneRaised s u
NoneRaised-trans h k f e = k f (h f e)

lowering-up :
    (now : ℕ) (s : SlideshowOperationState) (f : Flag)
    → up f (slideshow_operation_reducer now s (lowering f)) ≡ false
unfolding slideshow_operation_reducer
lowering-up now s toggling = refl
lowering-up now s clearing = refl
lowering-up now s skipping = refl
lowering-up now s showing = refl
lowering-up now s updating = refl

index_inj : (f g : Flag) → (index f == index g) ≡ true → f ≡ g
index_inj toggling toggling h = refl
index_inj clearing clearing h = refl
index_inj skipping skipping h = refl
index_inj showing showing h = refl
index_inj updating updating h = refl
index_inj _ _ h = ground arith

lowered-Held :
    (s t : SlideshowOperationState) (f : Flag) (g0 g g' : Phase)
    → NoneRaised s t
    → up f t ≡ false
    → Held g0 g s
    → set_flag f false g ≡ some g'
    → Held g0 g' t
lowered-Held s t f idle g g' n z l e = elim l [ ]
lowered-Held s t f (holding h) idle g' n z l e = elim l [ ]
lowered-Held s t f released idle g' n z l e = elim l [ ]
lowered-Held s t f released (holding k) g' n z l e = elim l [ ]
lowered-Held s t f released released g' n z l e = subst (λ x. Held released x t) (some_inj e) tt
lowered-Held s t f (holding h) released g' n z l e =
    subst (λ x. Held (holding h) x t) (some_inj e) (n h l)
lowered-Held s t f (holding h) (holding k) g' n z l e =
    subst (λ x. Held (holding h) x t) (some_inj e) (go (index f == index k) refl)
  where
    go :
        (b : Bool)
        → (index f == index k) ≡ b
        → Held (holding h) (if b then released else holding k) t
    go true q = subst (λ x. up x t ≡ false) (index_inj f k q ∙ sym l) z
    go false q = l

-- A program that holds a flag, or has released it, raises none, and holds the flag until it lowers
-- it.
lowering-Course :
    (now : ℕ) (s0 s : SlideshowOperationState) (g0 g g' : Phase) (f : Flag)
    → set_flag f false g ≡ some g'
    → Course s0 g0 g s
    → Course s0 g0 g' (slideshow_operation_reducer now s (lowering f))
lowering-Course now s0 s g0 g g' f e (n, l) =
    let n' = lowering-NoneRaised now s f in
    (NoneRaised-trans n n', lowered-Held s _ f g0 g g' n' (lowering-up now s f) l e)

same_flags :
    (s t : SlideshowOperationState)
    → s.is_toggling ≡ t.is_toggling
    → s.is_clearing_display ≡ t.is_clearing_display
    → s.is_skipping_image ≡ t.is_skipping_image
    → s.is_showing_image ≡ t.is_showing_image
    → s.is_updating_interval ≡ t.is_updating_interval
    → (f : Flag) → up f s ≡ up f t
same_flags s t a b c d e toggling = a
same_flags s t a b c d e clearing = b
same_flags s t a b c d e skipping = c
same_flags s t a b c d e showing = d
same_flags s t a b c d e updating = e

Held-moved :
    (s t : SlideshowOperationState) (g0 g : Phase)
    → ((f : Flag) → up f s ≡ up f t)
    → Held g0 g s
    → Held g0 g t
Held-moved s t idle g same h = h
Held-moved s t (holding f) idle same h = h
Held-moved s t (holding f) (holding k) same h = h
Held-moved s t (holding f) released same h = sym (same f) ∙ h
Held-moved s t released idle same h = h
Held-moved s t released (holding k) same h = h
Held-moved s t released released same h = h

-- An action that sets none of the flags.
untouched :
    (s0 : SlideshowOperationState) (g0 g g' : Phase) (s t : SlideshowOperationState)
    → ((f : Flag) → up f s ≡ up f t)
    → g ≡ g'
    → Course s0 g0 g s
    → Course s0 g0 g' t
untouched s0 g0 g g' s t same e (n, l) =
    subst (λ x. Course s0 g0 x t) e ((λ f z. sym (same f) ∙ n f z), Held-moved s t g0 g same l)

not_raised :
    (s : SlideshowOperationState) {g' : Phase} (f : Flag) (g0 g : Phase)
    → set_flag f true g ≡ some g'
    → Held g0 g s
    → ⊥
not_raised s f idle idle e h = h
not_raised s f idle (holding k) e h = h
not_raised s f idle released e h = h
not_raised s f (holding k) idle e h = h
not_raised s f released idle e h = h
not_raised s f g0 (holding k) e h = none-some e
not_raised s f g0 released e h = none-some e

pub root_reducer-Course :
    (s0 : SlideshowOperationState) (g0 : Phase) (now : ℕ) (s : RootState) (a : Action)
    (g g' : Phase)
    → next_phase g a ≡ some g'
    → Course s0 g0 g s.slideshow_operation
    → Course s0 g0 g' (root_reducer now s a).slideshow_operation
unfolding root_reducer slideshow_operation_reducer
root_reducer-Course s0 g0 now s (Action.slideshow_operation (set_toggle_status false)) g g' e h =
    lowering-Course now s0 _ g0 g g' toggling e h
root_reducer-Course s0 g0 now s (Action.slideshow_operation (set_clear_display_status false)) g g' e
      h =
    lowering-Course now s0 _ g0 g g' clearing e h
root_reducer-Course s0 g0 now s (Action.slideshow_operation (set_skip_image_status false)) g g' e
      h =
    lowering-Course now s0 _ g0 g g' skipping e h
root_reducer-Course s0 g0 now s (Action.slideshow_operation (set_show_image_status false)) g g' e
      h =
    lowering-Course now s0 _ g0 g g' showing e h
root_reducer-Course s0 g0 now s (Action.slideshow_operation (set_update_interval_status false)) g g'
      e h =
    lowering-Course now s0 _ g0 g g' updating e h
root_reducer-Course s0 g0 now s (Action.slideshow_operation (set_toggle_status true)) g g' e h =
    absurd (not_raised _ _ g0 g e h.1)
root_reducer-Course s0 g0 now s (Action.slideshow_operation (set_clear_display_status true)) g g' e
      h =
    absurd (not_raised _ _ g0 g e h.1)
root_reducer-Course s0 g0 now s (Action.slideshow_operation (set_skip_image_status true)) g g' e h =
    absurd (not_raised _ _ g0 g e h.1)
root_reducer-Course s0 g0 now s (Action.slideshow_operation (set_show_image_status true)) g g' e h =
    absurd (not_raised _ _ g0 g e h.1)
root_reducer-Course s0 g0 now s (Action.slideshow_operation (set_update_interval_status true)) g g'
      e h =
    absurd (not_raised _ _ g0 g e h.1)
root_reducer-Course s0 g0 now s (Action.slideshow_operation reset_operation) g g' e h =
    absurd (none-some e)
root_reducer-Course s0 g0 now s (Action.slideshow_operation (set_fetch_interval_status b)) g g' e
      h =
    untouched s0 g0 g g' s.slideshow_operation _
      (same_flags s.slideshow_operation _ refl refl refl refl refl) (some_inj e) h
root_reducer-Course s0 g0 now s (Action.slideshow_operation (set_display_refresh_interval m)) g g' e
      h =
    untouched s0 g0 g g' s.slideshow_operation _
      (same_flags s.slideshow_operation _ refl refl refl refl refl) (some_inj e) h
root_reducer-Course s0 g0 now s (Action.slideshow_operation (set_update_night_mode_status b)) g g' e
      h =
    untouched s0 g0 g g' s.slideshow_operation _
      (same_flags s.slideshow_operation _ refl refl refl refl refl) (some_inj e) h
root_reducer-Course s0 g0 now s (Action.slideshow_operation (set_fetch_night_mode_status b)) g g' e
      h =
    untouched s0 g0 g g' s.slideshow_operation _
      (same_flags s.slideshow_operation _ refl refl refl refl refl) (some_inj e) h
root_reducer-Course s0 g0 now s (Action.slideshow_operation (set_night_mode n)) g g' e h =
    untouched s0 g0 g g' s.slideshow_operation _
      (same_flags s.slideshow_operation _ refl refl refl refl refl) (some_inj e) h
root_reducer-Course s0 g0 now s (Action.slideshow_operation (set_error m)) g g' e h =
    untouched s0 g0 g g' s.slideshow_operation _
      (same_flags s.slideshow_operation _ refl refl refl refl refl) (some_inj e) h
root_reducer-Course s0 g0 now s _ g g' e h =
    subst (λ x. Course s0 g0 x s.slideshow_operation) (some_inj e) h

abbrev pub AllDown : SlideshowOperationState → Type 0
AllDown s = (f : Flag) → up f s ≡ false

pub raising-up :
    (now : ℕ) (s : SlideshowOperationState) (f g : Flag)
    → AllDown s
    → up g (slideshow_operation_reducer now s (raising f)) ≡ true
    → f ≡ g
unfolding slideshow_operation_reducer
raising-up now s toggling toggling d h = refl
raising-up now s clearing clearing d h = refl
raising-up now s skipping skipping d h = refl
raising-up now s showing showing d h = refl
raising-up now s updating updating d h = refl
raising-up now s toggling g d h = absurd (true-false (sym h ∙ d g))
raising-up now s clearing g d h = absurd (true-false (sym h ∙ d g))
raising-up now s skipping g d h = absurd (true-false (sym h ∙ d g))
raising-up now s showing g d h = absurd (true-false (sym h ∙ d g))
raising-up now s updating g d h = absurd (true-false (sym h ∙ d g))

all_down :
    (t : SlideshowOperationState)
    → t.is_toggling ≡ false
    → t.is_clearing_display ≡ false
    → t.is_skipping_image ≡ false
    → t.is_showing_image ≡ false
    → t.is_updating_interval ≡ false
    → AllDown t
all_down t a b c d e toggling = a
all_down t a b c d e clearing = b
all_down t a b c d e skipping = c
all_down t a b c d e showing = d
all_down t a b c d e updating = e

-- The guard lets an operation in exactly while all flags are down.
pub is_busy-AllDown : (s : SlideshowOperationState) → is_busy s ≡ false → AllDown s
unfolding is_busy
is_busy-AllDown s h =
    all_down s (ground arith) (ground arith) (ground arith) (ground arith) (ground arith)

pub AllDown-is_busy : (s : SlideshowOperationState) → AllDown s → is_busy s ≡ false
unfolding is_busy
AllDown-is_busy s h = ground (arith, h toggling, h clearing, h skipping, h showing, h updating)

-- The other parts of the dashboard raise none of the flags.
pub RaisesNone-NoneRaised :
    (now : ℕ) (s : RootState) (a : Action)
    → RaisesNone a
    → NoneRaised s.slideshow_operation (root_reducer now s a).slideshow_operation
unfolding root_reducer slideshow_operation_reducer
RaisesNone-NoneRaised now s (Action.slideshow_operation (set_toggle_status true)) h = elim h [ ]
RaisesNone-NoneRaised now s (Action.slideshow_operation (set_toggle_status false)) h =
    lowering-NoneRaised now s.slideshow_operation toggling
RaisesNone-NoneRaised now s (Action.slideshow_operation (set_clear_display_status true)) h =
    elim h [ ]
RaisesNone-NoneRaised now s (Action.slideshow_operation (set_clear_display_status false)) h =
    lowering-NoneRaised now s.slideshow_operation clearing
RaisesNone-NoneRaised now s (Action.slideshow_operation (set_skip_image_status true)) h = elim h [ ]
RaisesNone-NoneRaised now s (Action.slideshow_operation (set_skip_image_status false)) h =
    lowering-NoneRaised now s.slideshow_operation skipping
RaisesNone-NoneRaised now s (Action.slideshow_operation (set_show_image_status true)) h = elim h [ ]
RaisesNone-NoneRaised now s (Action.slideshow_operation (set_show_image_status false)) h =
    lowering-NoneRaised now s.slideshow_operation showing
RaisesNone-NoneRaised now s (Action.slideshow_operation (set_update_interval_status true)) h =
    elim h [ ]
RaisesNone-NoneRaised now s (Action.slideshow_operation (set_update_interval_status false)) h =
    lowering-NoneRaised now s.slideshow_operation updating
RaisesNone-NoneRaised now s (Action.slideshow_operation (set_fetch_interval_status b)) h =
    λ f z. sym (same_flags s.slideshow_operation _ refl refl refl refl refl f) ∙ z
RaisesNone-NoneRaised now s (Action.slideshow_operation (set_display_refresh_interval m)) h =
    λ f z. sym (same_flags s.slideshow_operation _ refl refl refl refl refl f) ∙ z
RaisesNone-NoneRaised now s (Action.slideshow_operation (set_update_night_mode_status b)) h =
    λ f z. sym (same_flags s.slideshow_operation _ refl refl refl refl refl f) ∙ z
RaisesNone-NoneRaised now s (Action.slideshow_operation (set_fetch_night_mode_status b)) h =
    λ f z. sym (same_flags s.slideshow_operation _ refl refl refl refl refl f) ∙ z
RaisesNone-NoneRaised now s (Action.slideshow_operation (set_night_mode n)) h =
    λ f z. sym (same_flags s.slideshow_operation _ refl refl refl refl refl f) ∙ z
RaisesNone-NoneRaised now s (Action.slideshow_operation (set_error m)) h =
    λ f z. sym (same_flags s.slideshow_operation _ refl refl refl refl refl f) ∙ z
RaisesNone-NoneRaised now s (Action.slideshow_operation reset_operation) h =
    λ f z. all_down _ refl refl refl refl refl f
RaisesNone-NoneRaised now s a h = λ f z. z
