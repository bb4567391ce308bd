-- ===== src/Snackbars/Alerts.antt =====
-- The alert list of snackbars.Slice.tsx: a bounded queue of the newest alerts.
use shareframe_board.Common.{
  ℕ, suc, ◌-◌, ◌≤◌, ◌≡◌, ap, ◌∙◌, sym, List, [], ◌∷◌, ◌++◌, arith, length, drop, length-append,
  length-drop, length-filter-le, drop-append, drop-drop_one, append_assoc, append-nil, Bool-cases,
  leb, leb→le, leb_false→lt, inl, inr,
}
use shareframe_board.Snackbars.{
  AlertSnackbarItem, SnackbarsState, SnackbarsAction, alert_snackbar_added, alert_snackbar_removed,
  loading_snackbar_added, loading_snackbar_removed, clear_all_snackbars,
  clear_all_loading_snackbars, max_alert_snackbars, push_alert, without_alert, snackbars_reducer,
}

length-push_alert :
    (a : AlertSnackbarItem) (xs : List AlertSnackbarItem)
    → length xs ≤ max_alert_snackbars
    → length (push_alert a xs) ≤ max_alert_snackbars
unfolding push_alert
length-push_alert a xs h =
    ground (arith, length-append xs (a ∷ []), length-append (drop 1 xs) (a ∷ []), length-drop 1 xs)

-- Whatever action is reduced, the list of alerts stays within five.
pub snackbars_reducer-bounded :
    (s : SnackbarsState) (a : SnackbarsAction)
    → length s.alerts ≤ max_alert_snackbars
    → length (snackbars_reducer s a).alerts ≤ max_alert_snackbars
unfolding snackbars_reducer without_alert
snackbars_reducer-bounded s (alert_snackbar_added a) h = length-push_alert a s.alerts h
snackbars_reducer-bounded s (alert_snackbar_removed id) h =
    omega (arith, length-filter-le _ s.alerts)
snackbars_reducer-bounded s (loading_snackbar_added i) h = h
snackbars_reducer-bounded s (loading_snackbar_removed id) h = h
snackbars_reducer-bounded s clear_all_snackbars h = omega arith
snackbars_reducer-bounded s clear_all_loading_snackbars h = h

-- The last `n` items.
abbrev pub last_of {ℓ} : {A : Type ℓ} → ℕ → List A → List A
last_of n xs = drop (length xs - n) xs

-- Dropping the surplus first does not change what one more alert leaves.
push_alert-last_of :
    (a : AlertSnackbarItem) (xs : List AlertSnackbarItem)
    → push_alert a (last_of max_alert_snackbars xs) ≡ last_of max_alert_snackbars (xs ++ a ∷ [])
unfolding push_alert
push_alert-last_of a xs = elim (Bool-cases (leb 5 (length (last_of 5 xs)))) [
  | inl full ↦
      let many : 5 ≤ length xs = omega (arith, leb→le _ _ full, length-drop (length xs - 5) xs) in
      let shift : suc (length xs - 5) ≡ length (xs ++ a ∷ []) - 5 =
        omega (arith, length-append xs (a ∷ [])) in
      rw full (
        ap (λ ys. ys ++ a ∷ []) (drop-drop_one (length xs - 5) xs)
        ∙ sym (drop-append (suc (length xs - 5)) xs (a ∷ []) (omega arith))
        ∙ ap (λ n. drop n (xs ++ a ∷ [])) shift)
  | inr room ↦
      let few : length xs - 5 ≡ 0 =
        omega (arith, leb_false→lt _ _ room, length-drop (length xs - 5) xs) in
      let still : length (xs ++ a ∷ []) - 5 ≡ 0 =
        omega (
          arith,
          leb_false→lt _ _ room,
          length-drop (length xs - 5) xs,
          length-append xs (a ∷ []),
        ) in
      rw room (ap (λ n. drop n xs ++ a ∷ []) few ∙ sym (ap (λ n. drop n (xs ++ a ∷ [])) still))
]

unfoldable pub add_all : List AlertSnackbarItem → SnackbarsState → SnackbarsState
add_all [] s = s
add_all (a ∷ rest) s = add_all rest (snackbars_reducer s (alert_snackbar_added a))

add_all-last_of :
    (xs old : List AlertSnackbarItem) (s : SnackbarsState)
    → s.alerts ≡ last_of max_alert_snackbars old
    → (add_all xs s).alerts ≡ last_of max_alert_snackbars (old ++ xs)
unfolding add_all snackbars_reducer
add_all-last_of [] old s h = h ∙ ap (last_of 5) (sym (append-nil old))
add_all-last_of (a ∷ rest) old s h =
    add_all-last_of rest (old ++ a ∷ []) _ (ap (push_alert a) h ∙ push_alert-last_of a old)
    ∙ ap (last_of 5) (append_assoc old (a ∷ []) rest)

-- From the empty list, the alerts on screen after any number of additions are the newest five of
-- all that were added, in order.
pub add_all_newest :
    (xs : List AlertSnackbarItem) (s : SnackbarsState)
    → s.alerts ≡ []
    → (add_all xs s).alerts ≡ last_of max_alert_snackbars xs
add_all_newest xs s h = add_all-last_of xs [] s h
