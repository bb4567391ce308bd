-- ===== src/Interleaving/Phases.antt =====
-- The flag that an operation of slideshowOperation.Slice.tsx holds, followed along every path of its
-- program.
use shareframe_board.Common.{ℕ, Bool, true, false, ◌==◌, Option, none, some, String, if◌then◌else◌}
use shareframe_board.Board.{
  Thrown, error_of, Response, ServerResponse, DataOf, Reply, malformed, json, Body,
}
use shareframe_board.SlideshowOperation.{
  SlideshowOperationState, set_toggle_status, set_clear_display_status, set_skip_image_status,
  set_show_image_status, set_update_interval_status, reset_operation,
}
use shareframe_board.Store.{RootState, Action}
use shareframe_board.Thunk.{
  Prog, ret, raise, dispatching, fetching, reading, naming, timing, sleeping, starting, navigating,
  reloading, ◌>>=◌, ◌>>◌, try_catch, finally, when, read_json, throw_error, data_of,
}
use shareframe_board.Common.Text.{◌<>◌}

-- The five flags of the operations that exclude one another.
pub data Flag : Type 0 where
  toggling clearing skipping showing updating : Flag

abbrev pub up : Flag → SlideshowOperationState → Bool
up toggling s = s.is_toggling
up clearing s = s.is_clearing_display
up skipping s = s.is_skipping_image
up showing s = s.is_showing_image
up updating s = s.is_updating_interval

abbrev pub index : Flag → ℕ
index toggling = 0
index clearing = 1
index skipping = 2
index showing = 3
index updating = 4

-- Before an operation raises its flag, while the flag is up, and after it is lowered.
pub data Phase : Type 0 where
  idle : Phase
  holding : Flag → Phase
  released : Phase

-- Where an action leads that sets the flag `f`. No second flag is raised.
abbrev pub set_flag : Flag → Bool → Phase → Option Phase
set_flag f true idle = some (holding f)
set_flag f true (holding g) = none
set_flag f true released = none
set_flag f false idle = some idle
set_flag f false (holding g) = some (if index f == index g then released else holding g)
set_flag f false released = some released

abbrev pub next_phase : Phase → Action → Option Phase
next_phase g (Action.slideshow_operation (set_toggle_status b)) = set_flag toggling b g
next_phase g (Action.slideshow_operation (set_clear_display_status b)) = set_flag clearing b g
next_phase g (Action.slideshow_operation (set_skip_image_status b)) = set_flag skipping b g
next_phase g (Action.slideshow_operation (set_show_image_status b)) = set_flag showing b g
next_phase g (Action.slideshow_operation (set_update_interval_status b)) = set_flag updating b g
next_phase g (Action.slideshow_operation reset_operation) = none
next_phase g _ = some g

abbrev pub InPhase : Option Phase → (Phase → Type 0) → Type 0
InPhase none P = ⊥
InPhase (some g) P = P g

-- Along every path of a program that starts in a phase, each action leads to a phase, and the end is
-- one of `Q` or, for an error, of `E`.
abbrev pub Along :
    {A : Type 0} → (Phase → A → Type 0) → (Phase → Thrown → Type 0) → Phase → Prog A → Type 0
Along Q E g (ret a) = Q g a
Along Q E g (raise e) = E g e
Along Q E g (dispatching a p) = InPhase (next_phase g a) λ g'. Along Q E g' p
Along Q E g (fetching r k) = (x : Reply (DataOf r.endpoint)) → Along Q E g (k x)
Along Q E g (reading k) = (x : RootState) → Along Q E g (k x)
Along Q E g (naming k) = (x : String) → Along Q E g (k x)
Along Q E g (timing k) = (x : ℕ) → Along Q E g (k x)
Along Q E g (sleeping n p) = Along Q E g p
Along Q E g (starting c p) = Along Q E g p
Along Q E g (navigating u p) = Along Q E g p
Along Q E g (reloading p) = Along Q E g p

abbrev pub InPhase-map :
    {P Q : Phase → Type 0} (o : Option Phase)
    → ((g : Phase) → P g → Q g)
    → InPhase o P
    → InPhase o Q
InPhase-map none f h = h
InPhase-map (some g) f h = f g h

pub Along-bind :
    {A B : Type 0} (Q : Phase → B → Type 0) (E : Phase → Thrown → Type 0) (g : Phase) (p : Prog A)
    (f : A → Prog B)
    → Along (λ g' a. Along Q E g' (f a)) E g p
    → Along Q E g (p >>= f)
Along-bind Q E g (ret a) f h = h
Along-bind Q E g (raise e) f h = h
Along-bind Q E g (dispatching a p) f h =
    InPhase-map (next_phase g a) (λ g' h'. Along-bind Q E g' p f h') h
Along-bind Q E g (fetching r k) f h = λ x. Along-bind Q E g (k x) f (h x)
Along-bind Q E g (reading k) f h = λ x. Along-bind Q E g (k x) f (h x)
Along-bind Q E g (naming k) f h = λ x. Along-bind Q E g (k x) f (h x)
Along-bind Q E g (timing k) f h = λ x. Along-bind Q E g (k x) f (h x)
Along-bind Q E g (sleeping n p) f h = Along-bind Q E g p f h
Along-bind Q E g (starting c p) f h = Along-bind Q E g p f h
Along-bind Q E g (navigating u p) f h = Along-bind Q E g p f h
Along-bind Q E g (reloading p) f h = Along-bind Q E g p f h

pub Along-try_catch :
    {A : Type 0} (Q : Phase → A → Type 0) (E : Phase → Thrown → Type 0) (g : Phase) (p : Prog A)
    (f : Thrown → Prog A)
    → Along Q (λ g' e. Along Q E g' (f e)) g p
    → Along Q E g (try_catch p f)
Along-try_catch Q E g (ret a) f h = h
Along-try_catch Q E g (raise e) f h = h
Along-try_catch Q E g (dispatching a p) f h =
    InPhase-map (next_phase g a) (λ g' h'. Along-try_catch Q E g' p f h') h
Along-try_catch Q E g (fetching r k) f h = λ x. Along-try_catch Q E g (k x) f (h x)
Along-try_catch Q E g (reading k) f h = λ x. Along-try_catch Q E g (k x) f (h x)
Along-try_catch Q E g (naming k) f h = λ x. Along-try_catch Q E g (k x) f (h x)
Along-try_catch Q E g (timing k) f h = λ x. Along-try_catch Q E g (k x) f (h x)
Along-try_catch Q E g (sleeping n p) f h = Along-try_catch Q E g p f h
Along-try_catch Q E g (starting c p) f h = Along-try_catch Q E g p f h
Along-try_catch Q E g (navigating u p) f h = Along-try_catch Q E g p f h
Along-try_catch Q E g (reloading p) f h = Along-try_catch Q E g p f h

pub Along-finally :
    {A : Type 0} (Q : Phase → A → Type 0) (E : Phase → Thrown → Type 0) (g : Phase) (p : Prog A)
    (last : Prog (Unit {0}))
    → Along (λ g' a. Along Q E g' (last >> ret a)) (λ g' e. Along Q E g' (last >> raise e)) g p
    → Along Q E g (finally p last)
Along-finally Q E g (ret a) f h = h
Along-finally Q E g (raise e) f h = h
Along-finally Q E g (dispatching a p) f h =
    InPhase-map (next_phase g a) (λ g' h'. Along-finally Q E g' p f h') h
Along-finally Q E g (fetching r k) f h = λ x. Along-finally Q E g (k x) f (h x)
Along-finally Q E g (reading k) f h = λ x. Along-finally Q E g (k x) f (h x)
Along-finally Q E g (naming k) f h = λ x. Along-finally Q E g (k x) f (h x)
Along-finally Q E g (timing k) f h = λ x. Along-finally Q E g (k x) f (h x)
Along-finally Q E g (sleeping n p) f h = Along-finally Q E g p f h
Along-finally Q E g (starting c p) f h = Along-finally Q E g p f h
Along-finally Q E g (navigating u p) f h = Along-finally Q E g p f h
Along-finally Q E g (reloading p) f h = Along-finally Q E g p f h

pub Along-map :
    {A : Type 0} (Q Q' : Phase → A → Type 0) (E E' : Phase → Thrown → Type 0)
    → ((g : Phase) (a : A) → Q g a → Q' g a)
    → ((g : Phase) (e : Thrown) → E g e → E' g e)
    → (g : Phase) (p : Prog A) → Along Q E g p
    → Along Q' E' g p
Along-map Q Q' E E' f f' g (ret a) h = f g a h
Along-map Q Q' E E' f f' g (raise e) h = f' g e h
Along-map Q Q' E E' f f' g (dispatching a p) h =
    InPhase-map (next_phase g a) (λ g' h'. Along-map Q Q' E E' f f' g' p h') h
Along-map Q Q' E E' f f' g (fetching r k) h = λ x. Along-map Q Q' E E' f f' g (k x) (h x)
Along-map Q Q' E E' f f' g (reading k) h = λ x. Along-map Q Q' E E' f f' g (k x) (h x)
Along-map Q Q' E E' f f' g (naming k) h = λ x. Along-map Q Q' E E' f f' g (k x) (h x)
Along-map Q Q' E E' f f' g (timing k) h = λ x. Along-map Q Q' E E' f f' g (k x) (h x)
Along-map Q Q' E E' f f' g (sleeping n p) h = Along-map Q Q' E E' f f' g p h
Along-map Q Q' E E' f f' g (starting c p) h = Along-map Q Q' E E' f f' g p h
Along-map Q Q' E E' f f' g (navigating u p) h = Along-map Q Q' E E' f f' g p h
Along-map Q Q' E E' f f' g (reloading p) h = Along-map Q Q' E E' f f' g p h

pub Along-if :
    {A : Type 0} (Q : Phase → A → Type 0) (E : Phase → Thrown → Type 0) (g : Phase) (b : Bool)
    (p q : Prog A)
    → Along Q E g p
    → Along Q E g q
    → Along Q E g (if b then p else q)
Along-if Q E g true p q hp hq = hp
Along-if Q E g false p q hp hq = hq

pub Along-read_json :
    {B D : Type 0} (Q : Phase → B → Type 0) (E : Phase → Thrown → Type 0) (g : Phase)
    (x : Response D) (f : ServerResponse D → Prog B)
    → ((e : Thrown) → E g e)
    → ((d : ServerResponse D) → Along Q E g (f d))
    → Along Q E g (read_json x >>= f)
Along-read_json {D = D} Q E g x f fails goes = Along-bind Q E g (read_json x) f (go x.body)
  where
    go :
        (b : Body D)
        → Along (λ g' d. Along Q E g' (f d)) E g (elim b [ malformed e ↦ raise e | json d ↦ ret d ])
    go (malformed e) = fails e
    go (json d) = goes d

pub Along-guard :
    {B : Type 0} (Q : Phase → B → Type 0) (E : Phase → Thrown → Type 0) (g : Phase) (b : Bool)
    (m : String) (q : Prog B)
    → ((e : Thrown) → E g e)
    → Along Q E g q
    → Along Q E g (when b (throw_error m) >> q)
Along-guard Q E g true m q fails goes = fails (error_of m)
Along-guard Q E g false m q fails goes = goes

pub Along-data_of :
    {B D : Type 0} (Q : Phase → B → Type 0) (E : Phase → Thrown → Type 0) (g : Phase)
    (name : String) (d : ServerResponse D) (f : D → Prog B)
    → ((e : Thrown) → E g e)
    → ((x : D) → Along Q E g (f x))
    → Along Q E g (data_of name d >>= f)
Along-data_of {D = D} Q E g name d f fails goes = Along-bind Q E g (data_of name d) f (go d.content)
  where
    go :
        (c : Option D)
        → Along
            (λ g' x. Along Q E g' (f x))
            E
            g
            (elim c [
              | none ↦ throw_error ("Cannot read properties of null (reading '" <> name <> "')")
              | some x ↦ ret x
            ])
    go none = fails _
    go (some x) = goes x
