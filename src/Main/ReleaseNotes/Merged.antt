-- ===== src/Main/ReleaseNotes/Merged.antt =====
-- What releaseNotes.ts makes of the lines: nothing is lost, and bullets in a row are one list.
use shareframe_board.Common.{
  ◌≡◌, refl, ◌∙◌, sym, ap, none, some, List, [], ◌∷◌, ◌++◌, map, append_assoc, append-nil, String,
  str_eq, if◌then◌else◌, Bool-cases, Option-cases, inl, inr,
}
use shareframe_board.Main.ReleaseNotes.{
  ReleaseNotesBlock, paragraph, list, trim, note_lines, bullet_item, add_item, add_line, add_lines,
  parse_release_notes,
}

-- A piece of the notes, outside of its block.
pub data Piece : Type 0 where
  text bullet : String → Piece

abbrev pub pieces_of : ReleaseNotesBlock → List Piece
pieces_of (paragraph line) = text line ∷ []
pieces_of (list items) = map bullet items

abbrev pub flat : List ReleaseNotesBlock → List Piece
flat [] = []
flat (b ∷ blocks) = pieces_of b ++ flat blocks

-- The piece of a trimmed line; a blank one has none.
abbrev pub piece_of : String → List Piece
piece_of line =
    if str_eq line ""
    then []
    else elim (bullet_item line) [ some item ↦ bullet item ∷ [] | none ↦ text line ∷ [] ]

abbrev pub pieces_in : List String → List Piece
pieces_in [] = []
pieces_in (raw_line ∷ lines) = piece_of (trim raw_line) ++ pieces_in lines

map-append : (xs ys : List String) → map bullet (xs ++ ys) ≡ map bullet xs ++ map bullet ys
map-append [] ys = refl
map-append (x ∷ xs) ys = ap (◌∷◌ (bullet x)) (map-append xs ys)

flat-append : (xs ys : List ReleaseNotesBlock) → flat (xs ++ ys) ≡ flat xs ++ flat ys
flat-append [] ys = refl
flat-append (b ∷ xs) ys =
    ap (pieces_of b ++◌) (flat-append xs ys) ∙ sym (append_assoc (pieces_of b) (flat xs) (flat ys))

flat-add_item :
    (item : String) (blocks : List ReleaseNotesBlock)
    → flat (add_item item blocks) ≡ flat blocks ++ bullet item ∷ []
unfolding add_item
flat-add_item item [] = refl
flat-add_item item (paragraph line ∷ []) = refl
flat-add_item item (list items ∷ []) =
    append-nil (map bullet (items ++ item ∷ []))
    ∙ map-append items (item ∷ [])
    ∙ ap (◌++ bullet item ∷ []) (sym (append-nil (map bullet items)))
flat-add_item item (b ∷ next ∷ blocks) =
    ap (pieces_of b ++◌) (flat-add_item item (next ∷ blocks))
    ∙ sym (append_assoc (pieces_of b) (flat (next ∷ blocks)) (bullet item ∷ []))

flat-add_line :
    (line : String) (blocks : List ReleaseNotesBlock)
    → flat (add_line line blocks) ≡ flat blocks ++ piece_of line
unfolding add_line
flat-add_line line blocks = elim (Bool-cases (str_eq line "")) [
  | inl e ↦ rw e (sym (append-nil (flat blocks)))
  | inr e ↦ elim (Option-cases (bullet_item line)) [
    | inl o ↦ rw (e, o) (flat-append blocks (paragraph line ∷ []))
    | inr (item, o) ↦ rw (e, o) (flat-add_item item blocks)
  ]
]

flat-add_lines :
    (lines : List String) (blocks : List ReleaseNotesBlock)
    → flat (add_lines lines blocks) ≡ flat blocks ++ pieces_in lines
unfolding add_lines
flat-add_lines [] blocks = sym (append-nil (flat blocks))
flat-add_lines (raw_line ∷ lines) blocks =
    flat-add_lines lines (add_line (trim raw_line) blocks)
    ∙ ap (◌++ pieces_in lines) (flat-add_line (trim raw_line) blocks)
    ∙ append_assoc (flat blocks) (piece_of (trim raw_line)) (pieces_in lines)

-- No two lists stand side by side, and no list is empty.
abbrev pub IsMerged : List ReleaseNotesBlock → Type 0
IsMerged [] = Unit
IsMerged (paragraph line ∷ blocks) = IsMerged blocks
IsMerged (list [] ∷ blocks) = ⊥
IsMerged (list (item ∷ items) ∷ []) = Unit
IsMerged (list (item ∷ items) ∷ paragraph line ∷ blocks) = IsMerged blocks
IsMerged (list (item ∷ items) ∷ list more ∷ blocks) = ⊥

add_item-IsMerged :
    (item : String) (blocks : List ReleaseNotesBlock)
    → IsMerged blocks
    → IsMerged (add_item item blocks)
unfolding add_item
add_item-IsMerged item [] h = tt
add_item-IsMerged item (paragraph line ∷ []) h = tt
add_item-IsMerged item (paragraph line ∷ next ∷ blocks) h = add_item-IsMerged item (next ∷ blocks) h
add_item-IsMerged item (list [] ∷ blocks) h = elim h [ ]
add_item-IsMerged item (list (x ∷ items) ∷ []) h = tt
add_item-IsMerged item (list (x ∷ items) ∷ paragraph line ∷ []) h = tt
add_item-IsMerged item (list (x ∷ items) ∷ paragraph line ∷ next ∷ blocks) h =
    add_item-IsMerged item (next ∷ blocks) h
add_item-IsMerged item (list (x ∷ items) ∷ list more ∷ blocks) h = elim h [ ]

add_paragraph-IsMerged :
    (line : String) (blocks : List ReleaseNotesBlock)
    → IsMerged blocks
    → IsMerged (blocks ++ paragraph line ∷ [])
add_paragraph-IsMerged line [] h = tt
add_paragraph-IsMerged line (paragraph t ∷ blocks) h = add_paragraph-IsMerged line blocks h
add_paragraph-IsMerged line (list [] ∷ blocks) h = elim h [ ]
add_paragraph-IsMerged line (list (x ∷ items) ∷ []) h = tt
add_paragraph-IsMerged line (list (x ∷ items) ∷ paragraph t ∷ blocks) h =
    add_paragraph-IsMerged line blocks h
add_paragraph-IsMerged line (list (x ∷ items) ∷ list more ∷ blocks) h = elim h [ ]

add_line-IsMerged :
    (line : String) (blocks : List ReleaseNotesBlock)
    → IsMerged blocks
    → IsMerged (add_line line blocks)
unfolding add_line
add_line-IsMerged line blocks h = elim (Bool-cases (str_eq line "")) [
  | inl e ↦ rw e h
  | inr e ↦ elim (Option-cases (bullet_item line)) [
    | inl o ↦ rw (e, o) (add_paragraph-IsMerged line blocks h)
    | inr (item, o) ↦ rw (e, o) (add_item-IsMerged item blocks h)
  ]
]

add_lines-IsMerged :
    (lines : List String) (blocks : List ReleaseNotesBlock)
    → IsMerged blocks
    → IsMerged (add_lines lines blocks)
unfolding add_lines
add_lines-IsMerged [] blocks h = h
add_lines-IsMerged (raw_line ∷ lines) blocks h =
    add_lines-IsMerged lines (add_line (trim raw_line) blocks)
      (add_line-IsMerged (trim raw_line) blocks h)

-- The blocks hold what the lines that are not blank hold, each once and in order; bullets in a row are
-- one list, and no list is empty.
pub parse_release_notes-IsMerged :
    (notes : String)
    → (flat (parse_release_notes notes) ≡ pieces_in (note_lines notes))
      × IsMerged (parse_release_notes notes)
unfolding parse_release_notes
parse_release_notes-IsMerged notes =
    (flat-add_lines (note_lines notes) [], add_lines-IsMerged (note_lines notes) [] tt)
