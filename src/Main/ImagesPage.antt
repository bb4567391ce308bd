-- ===== src/Main/ImagesPage.antt =====
-- dashboard-frontend/frontend/src/main/slideshowImages/slideshowImages.tsx and slideshowImagesGrid.tsx:
-- how the pictures are put into an order of one's own.
pub mod Lookups
pub mod Reordered
use shareframe_board.Common.{
  ℕ, zero, suc, ◌<◌, ◌≡◌, Bool, true, false, not, ◌||◌, Option, none, some, List, [], ◌∷◌, length,
  map, if◌then◌else◌,
}
use shareframe_board.Common.Int.{ℤ, pos, negsuc, ltb_ℤ}
use shareframe_board.SlideshowImages.{
  SlideshowImage, PlaybackMode, shuffle, chronological, newest_first, custom,
}
use shareframe_board.Thunk.{Prog, ret}
use shareframe_board.Thunk.Toolkit.{Toolkit}
use shareframe_board.Thunks.Images.{update_playback_order_thunk}

-- What the page shows of its slice, and its own state.
pub record ImagesPage : Type 0 where
  pub images : List SlideshowImage
  pub draft : Option (List ℤ)

abbrev pub same_id : ℤ → ℤ → Bool
same_id a b = not (ltb_ℤ a b || ltb_ℤ b a)

abbrev pub ids_of : List SlideshowImage → List ℤ
ids_of [] = []
ids_of (img ∷ images) = img.id ∷ ids_of images

-- `byId.get(id)`; of two pictures with an id the later one is in the map.
unfoldable pub by_id : List SlideshowImage → ℤ → Option SlideshowImage
by_id [] id = none
by_id (img ∷ images) id = elim (by_id images id) [
  | some later ↦ some later
  | none ↦ if same_id img.id id then some img else none
]

unfoldable pub images_with : List SlideshowImage → List ℤ → List SlideshowImage
images_with images [] = []
images_with images (id ∷ ids) = elim (by_id images id) [
  | some img ↦ img ∷ images_with images ids
  | none ↦ images_with images ids
]

unfoldable pub shown : ImagesPage → List SlideshowImage
shown p = elim p.draft [ some ids ↦ images_with p.images ids | none ↦ p.images ]

-- `ids.indexOf(id)`.
unfoldable pub index_of : List ℤ → ℤ → ℤ
index_of [] id = negsuc 0
index_of (x ∷ xs) id =
    let rest = index_of xs id in
    if same_id x id then pos 0 else elim rest [ pos n ↦ pos (suc n) | negsuc n ↦ negsuc n ]

-- `arrayMove` of @dnd-kit/sortable, with its documented result for two positions in the list.
abbrev pub taken : ℕ → List ℤ → Option ℤ
taken n [] = none
taken zero (x ∷ xs) = some x
taken (suc n) (x ∷ xs) = taken n xs

abbrev pub without : ℕ → List ℤ → List ℤ
without n [] = []
without zero (x ∷ xs) = xs
without (suc n) (x ∷ xs) = x ∷ without n xs

abbrev pub insert_at : ℕ → ℤ → List ℤ → List ℤ
insert_at zero x xs = x ∷ xs
insert_at (suc n) x [] = x ∷ []
insert_at (suc n) x (y ∷ xs) = y ∷ insert_at n x xs

pub record Sortable : Type 0 where
  pub array_move : List ℤ → ℤ → ℤ → List ℤ
  pub moves :
      (xs : List ℤ) (from to : ℕ) (x : ℤ)
      → taken from xs ≡ some x
      → to < length xs
      → array_move xs (pos from) (pos to) ≡ insert_at to x (without from xs)

module _ (sortable : Sortable) where
  -- `move` of the grid, which hands the new order to `setDraft`.
  unfoldable pub move : ImagesPage → ℤ → ℤ → ImagesPage
  move p from to = record p { draft = some (sortable.array_move (ids_of (shown p)) from to) }

  -- `over` is missing when the picture is dropped outside of the list.
  unfoldable pub handle_drag_end : ImagesPage → ℤ → Option ℤ → ImagesPage
  handle_drag_end p active none = p
  handle_drag_end p active (some over) =
      if same_id active over
      then p
      else move p (index_of (ids_of (shown p)) active) (index_of (ids_of (shown p)) over)

-- The page after a choice of the mode, and the thunk that is dispatched.
unfoldable pub handle_mode_change :
    Toolkit → PlaybackMode → ImagesPage → ImagesPage × Prog (Unit {0})
handle_mode_change toolkit custom p = (record p { draft = some (ids_of p.images) }, ret tt)
handle_mode_change toolkit next p =
    (record p { draft = none }, update_playback_order_thunk toolkit next none)

-- What is dispatched to save, and the page once that is over.
unfoldable pub handle_save : Toolkit → ImagesPage → Prog (Unit {0})
handle_save toolkit p = elim p.draft [
  | none ↦ ret tt
  | some draft ↦ update_playback_order_thunk toolkit custom (some draft)
]

unfoldable pub after_save : Bool → ImagesPage → ImagesPage
after_save fulfilled_match p = if fulfilled_match then record p { draft = none } else p
