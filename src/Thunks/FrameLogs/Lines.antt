-- ===== src/Thunks/FrameLogs/Lines.antt =====
-- The lines that frameLogs.Slice.tsx makes of the board's text.
use shareframe_board.Common.{
  ◌≡◌, refl, ◌∙◌, sym, ap, Bool, true, false, not, List, [], ◌∷◌, String, str_eq, filter, All,
  All-filter, eq_iff, Bool-cases, inl, inr,
}
use shareframe_board.Common.Split.{
  split, concat, followed_by, without, has_char, concat-split, has_char-split,
}
use shareframe_board.Thunks.FrameLogs.{log_lines}

abbrev is_full : String → Bool
is_full line = not (str_eq line "")

concat-filter : (lines : List String) → concat (filter is_full lines) ≡ concat lines
concat-filter [] = refl
concat-filter (line ∷ lines) = elim (Bool-cases (str_eq line "")) [
  | inl h ↦
      rw h
        (concat-filter lines ∙ ap (λ l. followed_by l (concat lines)) (sym ((eq_iff line "").0 h)))
  | inr h ↦ rw h (ap (followed_by line) (concat-filter lines))
]

filter-full : (lines : List String) → All (λ line. is_full line ≡ true) (filter is_full lines)
filter-full [] = tt
filter-full (line ∷ lines) = elim (Bool-cases (is_full line)) [
  | inl h ↦ rw h (h, filter-full lines)
  | inr h ↦ rw h (filter-full lines)
]

-- The lines hold the text in order and lose nothing of it but the newlines; none is empty, and none
-- has a newline in it.
pub log_lines-concat :
    (text : String)
    → (concat (log_lines text) ≡ without 10 text)
      × All (λ line. not (str_eq line "") ≡ true) (log_lines text)
      × All (λ line. has_char 10 line ≡ false) (log_lines text)
unfolding log_lines
log_lines-concat text = (
  concat-filter (split 10 text) ∙ concat-split 10 text,
  filter-full (split 10 text),
  All-filter (λ line. has_char 10 line ≡ false) is_full (split 10 text) (has_char-split 10 text),
)
