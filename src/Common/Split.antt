-- ===== src/Common/Split.antt =====
-- `text.split(separator)` for a separator of one character.
use Prim.Native.Nat.{ℕ}
use Prim.Native.Char.{Char, code}
use Prim.Native.String.{String}
use mathlib.Core.Path.{◌≡◌, refl, ap, ◌∙◌}
use mathlib.Core.Bool.{Bool, true, false}
use mathlib.Core.List.{List, [], ◌∷◌}
use shareframe_board.Common.Tests.{◌==◌, if◌then◌else◌}
use shareframe_board.Common.Lists.{All}

-- A character in front of the first of the parts.
unfoldable pub prepend : Char → List String → List String
prepend c [] = (String.◌∷◌ c String.[]) ∷ []
prepend c (part ∷ parts) = String.◌∷◌ c part ∷ parts

unfoldable pub split : ℕ → String → List String
unfolding prepend
split sep String.[] = String.[] ∷ []
split sep (String.◌∷◌ c s) =
    let rest = split sep s in if code c == sep then String.[] ∷ rest else prepend c rest

abbrev pub has_char : ℕ → String → Bool
has_char n String.[] = false
has_char n (String.◌∷◌ c s) = if code c == n then true else has_char n s

abbrev pub followed_by : String → String → String
followed_by String.[] t = t
followed_by (String.◌∷◌ c s) t = String.◌∷◌ c (followed_by s t)

abbrev pub concat : List String → String
concat [] = String.[]
concat (part ∷ parts) = followed_by part (concat parts)

-- The text without a character.
abbrev pub without : ℕ → String → String
without n String.[] = String.[]
without n (String.◌∷◌ c s) =
    let rest = without n s in if code c == n then rest else String.◌∷◌ c rest

concat-prepend :
    (c : Char) (parts : List String) → concat (prepend c parts) ≡ String.◌∷◌ c (concat parts)
unfolding prepend
concat-prepend c [] = refl
concat-prepend c (part ∷ parts) = refl

-- The parts are the text without the separator, in order.
pub concat-split : (n : ℕ) (s : String) → concat (split n s) ≡ without n s
unfolding split
concat-split n String.[] = refl
concat-split n (String.◌∷◌ c s) = go (code c == n) (split n s) (concat-split n s)
  where
    go :
        (b : Bool) (parts : List String)
        → concat parts ≡ without n s
        → concat (if b then String.[] ∷ parts else prepend c parts)
          ≡ (if b then without n s else String.◌∷◌ c (without n s))
    go true parts h = h
    go false parts h = concat-prepend c parts ∙ ap (String.◌∷◌ c) h

has_char-prepend :
    (n : ℕ) (c : Char) (parts : List String)
    → (code c == n) ≡ false
    → All (λ part. has_char n part ≡ false) parts
    → All (λ part. has_char n part ≡ false) (prepend c parts)
unfolding prepend
has_char-prepend n c [] h hs = (rw h refl, tt)
has_char-prepend n c (part ∷ parts) h hs = (rw h (hs.0), hs.1)

-- No part has the separator.
pub has_char-split : (n : ℕ) (s : String) → All (λ part. has_char n part ≡ false) (split n s)
unfolding split
has_char-split n String.[] = (refl, tt)
has_char-split n (String.◌∷◌ c s) = go (code c == n) refl (has_char-split n s)
  where
    go :
        (b : Bool)
        → (code c == n) ≡ b
        → All (λ part. has_char n part ≡ false) (split n s)
        → All
            (λ part. has_char n part ≡ false)
            (if b then String.[] ∷ split n s else prepend c (split n s))
    go true h hs = (refl, hs)
    go false h hs = has_char-prepend n c (split n s) h hs
