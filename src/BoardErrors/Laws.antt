-- ===== src/BoardErrors/Laws.antt =====
-- When boardErrors.ts leaves the user without a text.
use shareframe_board.Common.{
  or_else, ◌==◌, if◌then◌else◌, ℕ, ◌≡◌, refl, Bool, true, false, Option, none, some, String, str_eq,
  Option-cases, Bool-cases, inl, inr,
}
use shareframe_board.Timers.Dict.{lookup, Entries, Entries-lookup}
use shareframe_board.BoardErrors.{known_messages, status_message, known_text, board_error_message}

abbrev IsText : String → String → Type 0
IsText key text = str_eq text "" ≡ false

known_messages-IsText : Entries IsText known_messages
known_messages-IsText = (
  refl,
  (
    refl,
    (
      refl,
      (
        refl,
        (
          refl,
          (
            refl,
            (refl, (refl, (refl, (refl, (refl, (refl, (refl, (refl, (refl, (refl, tt)))))))))),
          ),
        ),
      ),
    ),
  ),
)

-- A text that is there and empty.
abbrev pub is_empty : Option String → Bool
is_empty none = false
is_empty (some text) = str_eq text ""

choice-IsText :
    (b : Bool) (text fallback : String) (o : Option String)
    → IsText "" text
    → IsText "" (or_else o fallback)
    → IsText "" (or_else (if b then some text else o) fallback)
choice-IsText true text fallback o h k = h
choice-IsText false text fallback o h k = k

status_message-IsText :
    (status : ℕ) (fallback : String)
    → IsText "" fallback
    → IsText "" (or_else (status_message status) fallback)
unfolding status_message
status_message-IsText status fallback h = choice-IsText (status == 429) _ fallback _ refl (
    choice-IsText (status == 413) _ fallback _ refl (
      choice-IsText (status == 404) _ fallback _ refl
        (choice-IsText (status == 403) _ fallback none refl h)))

-- If the caller's own text is not empty, then the text for a failed answer is empty exactly if the
-- board's message is there and empty.
pub board_error_message-is_empty :
    (fallback : String) (status : ℕ) (message : Option String)
    → str_eq fallback "" ≡ false
    → str_eq (board_error_message fallback (some status) message) "" ≡ is_empty message
unfolding board_error_message known_text
board_error_message-is_empty fallback status none h = status_message-IsText status fallback h
board_error_message-is_empty fallback status (some text) h = elim (Bool-cases (str_eq text "")) [
  | inl empty ↦ rw (empty, known_text)
  | inr present ↦ elim (Option-cases (lookup text known_messages)) [
    | inl unknown ↦ rw (present, known_text, unknown) (status_message-IsText status fallback h)
    | inr (german, known) ↦
        rw (present, known_text, known)
          (Entries-lookup IsText text known_messages german known_messages-IsText known)
  ]
]
