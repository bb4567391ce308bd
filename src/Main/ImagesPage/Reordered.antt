-- ===== src/Main/ImagesPage/Reordered.antt =====
-- What the moves of slideshowImagesGrid.tsx make of the order that is to be saved.
use mathlib.Core.List.{Permᴰ}
use mathlib.Core.List.Permᴰ
use shareframe_board.Common.{ℕ, ◌<◌, ◌≡◌, true, none, some, List, length}
use shareframe_board.Common.Int.{ℤ, pos}
use shareframe_board.SlideshowImages.{SlideshowImage}
use shareframe_board.Main.ImagesPage.{ImagesPage, ids_of, shown, Sortable, move, handle_drag_end}
use shareframe_board.Thunk.Toolkit.{Toolkit}
use shareframe_board.Main.ImagesPage.Lookups.{has}

abbrev with_draft : List ℤ → ImagesPage → ImagesPage
with_draft ids p = record p { draft = some ids }

module _ (sortable : Sortable) where
  -- The pages that come about from the choice of an order of one's own, while the pictures stay the
  -- same. A picture is dragged to another one of those shown or dropped outside of them, or it is
  -- moved by the buttons, which are disabled where it would leave the list.
  pub data IsEdited (images : List SlideshowImage) : ImagesPage → Type 0 where
    chosen : IsEdited images (record { images = images; draft = some (ids_of images) })
    dragged :
        {p : ImagesPage} (active over : ℤ)
        → IsEdited images p
        → has active (ids_of (shown p)) ≡ true
        → has over (ids_of (shown p)) ≡ true
        → IsEdited images (handle_drag_end sortable p active (some over))
    dropped_outside :
        {p : ImagesPage} (active : ℤ)
        → IsEdited images p
        → IsEdited images (handle_drag_end sortable p active none)
    moved :
        {p : ImagesPage} (from to : ℕ)
        → IsEdited images p
        → from < length (ids_of (shown p))
        → to < length (ids_of (shown p))
        → IsEdited images (move sortable p (pos from) (pos to))

  abbrev pub IsReordered : List SlideshowImage → ImagesPage → Type 0
  IsReordered images p =
      (ids : List ℤ) × (p ≡ record { images = images; draft = some ids })
      × Permᴰ ids (ids_of images)
