-- ===== src/Interleaving/Owners.antt =====
-- The programs that wait, each with what it still has to do to the flags.
use shareframe_board.Common.{◌⊎◌, inl, inr, List, [], ◌∷◌, ◌++◌, All}
use shareframe_board.Thunk.{Prog, ret, raise}
use shareframe_board.Interleaving.{IsAtEnd}
use shareframe_board.Interleaving.Phases.{Flag, Phase, idle, holding, released}
use shareframe_board.Interleaving.Ends.{Ends}

abbrev pub Program : Type 0
Program = Prog (Unit {0})

-- A waiting program has raised its flag already.
abbrev pub HasBegun : Phase → Type 0
HasBegun idle = ⊥
HasBegun (holding f) = Unit
HasBegun released = Unit

abbrev pub IsTame : Program → Type 0
IsTame p = (g : Phase) × HasBegun g × Ends p g

-- One of the programs will lower the flag.
abbrev pub IsOwned : Flag → List Program → Type 0
IsOwned f [] = ⊥
IsOwned f (p ∷ ps) = Ends p (holding f) ⊎ IsOwned f ps

pub All-middle {ℓ} :
    (P : Program → Type ℓ) (before after : List Program) (p : Program)
    → All P (before ++ p ∷ after)
    → P p
All-middle P [] after p h = h.0
All-middle P (q ∷ before) after p h = All-middle P before after p h.1

pub All-replace {ℓ} :
    (P : Program → Type ℓ) (before after : List Program) (p p' : Program)
    → All P (before ++ p ∷ after)
    → P p'
    → All P (before ++ p' ∷ after)
All-replace P [] after p p' h k = (k, h.1)
All-replace P (q ∷ before) after p p' h k = (h.0, All-replace P before after p p' h.1 k)

pub IsOwned-replace :
    (f : Flag) (before after : List Program) (p p' : Program)
    → IsOwned f (before ++ p ∷ after)
    → (Ends p (holding f) → Ends p' (holding f))
    → IsOwned f (before ++ p' ∷ after)
IsOwned-replace f [] after p p' (inl h) k = inl (k h)
IsOwned-replace f [] after p p' (inr h) k = inr h
IsOwned-replace f (q ∷ before) after p p' (inl h) k = inl h
IsOwned-replace f (q ∷ before) after p p' (inr h) k = inr (IsOwned-replace f before after p p' h k)

at_end-Ends : (f : Flag) (p : Program) → IsAtEnd p → Ends p (holding f) → ⊥
at_end-Ends f (ret a) h k = k
at_end-Ends f (raise e) h k = k
at_end-Ends f _ h k = elim h [ ]

-- A program that is over owns nothing.
pub IsOwned-IsAtEnd : (f : Flag) (ps : List Program) → All IsAtEnd ps → IsOwned f ps → ⊥
IsOwned-IsAtEnd f [] h k = k
IsOwned-IsAtEnd f (p ∷ ps) h (inl k) = at_end-Ends f p h.0 k
IsOwned-IsAtEnd f (p ∷ ps) h (inr k) = IsOwned-IsAtEnd f ps h.1 k
