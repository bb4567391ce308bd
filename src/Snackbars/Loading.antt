-- ===== src/Snackbars/Loading.antt =====
-- The loading list of snackbars.Slice.tsx: an entry is taken away by its id.
use shareframe_board.Common.{
  ◌≡◌, refl, ◌≢◌, List, [], ◌∷◌, ◌++◌, Bool, false, ◌||◌, String, str_eq, eq_iff, eq_refl,
  append-nil, none, arith,
}
use shareframe_board.Snackbars.{
  SnackbarItem, SnackbarsState, without_loading, snackbars_reducer, add_loading_snackbar,
  remove_loading_snackbar,
}

-- Whether a loading notification with this id is on screen.
abbrev pub has_loading : String → List SnackbarItem → Bool
has_loading id [] = false
has_loading id (i ∷ items) = str_eq i.id id || has_loading id items

pub has_loading-without_loading :
    (id : String) (items : List SnackbarItem) → has_loading id (without_loading id items) ≡ false
unfolding without_loading
has_loading-without_loading id [] = refl
has_loading-without_loading id (i ∷ items) = ground (arith, has_loading-without_loading id items)

pub without_loading_ne :
    (id other : String) (items : List SnackbarItem)
    → id ≢ other
    → has_loading other (without_loading id items) ≡ has_loading other items
unfolding without_loading
without_loading_ne id other [] h = refl
without_loading_ne id other (i ∷ items) h =
    ground (arith, without_loading_ne id other items h, eq_iff i.id id, eq_iff i.id other)

without_loading_fresh :
    (id : String) (items : List SnackbarItem)
    → has_loading id items ≡ false
    → without_loading id items ≡ items
unfolding without_loading
without_loading_fresh id [] h = refl
without_loading_fresh id (i ∷ items) h = ground (arith, without_loading_fresh id items)

without_loading-append :
    (id : String) (xs ys : List SnackbarItem)
    → without_loading id (xs ++ ys) ≡ without_loading id xs ++ without_loading id ys
unfolding without_loading
without_loading-append id [] ys = refl
without_loading-append id (x ∷ xs) ys = ground (arith, without_loading-append id xs ys)

-- A loading notification under a fresh id, added and then removed, leaves no trace.
pub add-remove_loading :
    (s : SnackbarsState) (id message : String)
    → has_loading id s.loading ≡ false
    → snackbars_reducer
        (snackbars_reducer s (add_loading_snackbar id message))
        (remove_loading_snackbar id)
      ≡ s
unfolding snackbars_reducer without_loading
add-remove_loading s id message h = ground (
  arith,
  without_loading-append id s.loading
      (record { id = id; message = message; auto_hide_duration = none } ∷ []),
  without_loading_fresh id s.loading h,
  eq_refl id,
  append-nil s.loading,
)
