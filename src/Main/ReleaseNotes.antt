-- ===== src/Main/ReleaseNotes.antt =====
-- dashboard-frontend/frontend/src/common/utils/releaseNotes.ts: the notes of a release, as blocks.
pub mod Merged
use Prim.Native.Char.{Char, code}
use Prim.Native.String
use shareframe_board.Common.{
  ℕ, Bool, true, false, not, ◌||◌, ◌&&◌, Option, none, some, List, [], ◌∷◌, ◌++◌, map, String,
  str_eq, leb, ◌==◌, if◌then◌else◌,
}
use shareframe_board.Common.Split.{split}

-- The characters of `\s`, which `trim` takes away.
unfoldable pub is_space : ℕ → Bool
is_space c =
    (leb 9 c && leb c 13)
    || c == 32
    || c == 160
    || c == 5760
    || (leb 8192 c && leb c 8202)
    || c == 8232
    || c == 8233
    || c == 8239
    || c == 8287
    || c == 12288
    || c == 65279

unfoldable pub trim_start : String → String
trim_start String.[] = String.[]
trim_start (String.◌∷◌ c s) =
    let rest = trim_start s in if is_space (code c) then rest else String.◌∷◌ c s

unfoldable pub trim_end : String → String
trim_end String.[] = String.[]
trim_end (String.◌∷◌ c s) =
    let rest = trim_end s in
    if is_space (code c) && str_eq rest "" then String.[] else String.◌∷◌ c rest

unfoldable pub trim : String → String
trim s = trim_end (trim_start s)

-- A carriage return at the end of a line belongs to the line break.
unfoldable pub without_return : String → String
without_return String.[] = String.[]
without_return (String.◌∷◌ c s) =
    let rest = without_return s in
    if code c == 13 && str_eq s "" then String.[] else String.◌∷◌ c rest

unfoldable pub without_returns : List String → List String
without_returns [] = []
without_returns (line ∷ []) = line ∷ []
without_returns (line ∷ next ∷ lines) = without_return line ∷ without_returns (next ∷ lines)

-- `notes.split(/\r?\n/)`.
unfoldable pub note_lines : String → List String
note_lines notes = without_returns (split 10 notes)

-- What follows the bullet of a line: `/^[-*]\s+/`.
unfoldable pub bullet_item : String → Option String
bullet_item String.[] = none
bullet_item (String.◌∷◌ c String.[]) = none
bullet_item (String.◌∷◌ c (String.◌∷◌ d s)) =
    if (code c == 45 || code c == 42) && is_space (code d) then some (trim_start s) else none

pub data ReleaseNotesBlock : Type 0 where
  paragraph : String → ReleaseNotesBlock
  list : List String → ReleaseNotesBlock

-- An item goes to the last block if that is a list, and begins a list if not.
unfoldable pub add_item : String → List ReleaseNotesBlock → List ReleaseNotesBlock
add_item item [] = list (item ∷ []) ∷ []
add_item item (paragraph text ∷ []) = paragraph text ∷ list (item ∷ []) ∷ []
add_item item (list items ∷ []) = list (items ++ item ∷ []) ∷ []
add_item item (b ∷ next ∷ blocks) = b ∷ add_item item (next ∷ blocks)

-- The body of the loop, from the trimmed line on.
unfoldable pub add_line : String → List ReleaseNotesBlock → List ReleaseNotesBlock
add_line line blocks = if str_eq line "" then blocks else elim (bullet_item line) [
  | some item ↦ add_item item blocks
  | none ↦ blocks ++ paragraph line ∷ []
]

unfoldable pub add_lines : List String → List ReleaseNotesBlock → List ReleaseNotesBlock
add_lines [] blocks = blocks
add_lines (raw_line ∷ lines) blocks = add_lines lines (add_line (trim raw_line) blocks)

unfoldable pub parse_release_notes : String → List ReleaseNotesBlock
parse_release_notes notes = add_lines (note_lines notes) []
