-- ===== src/Timers/Dict.antt =====
-- A JavaScript object used as a dictionary: an association list in insertion order.
use shareframe_board.Common.{
  ◌≡◌, refl, sym, subst, Option, none, some, List, [], ◌∷◌, String, str_eq, eq_iff, eq_refl, arith,
  is_some, Bool-cases, inl, inr, if◌then◌else◌,
}

module _ {ℓ} {V : Type ℓ} where
  -- `dict[key]`.
  unfoldable pub lookup : String → List (String × V) → Option V
  lookup key [] = none
  lookup key ((k, v) ∷ rest) = if str_eq k key then some v else lookup key rest

  -- `dict[key] = v` for a key that is not there.
  unfoldable pub insert : String → V → List (String × V) → List (String × V)
  insert key v [] = (key, v) ∷ []
  insert key v (e ∷ rest) = e ∷ insert key v rest

  -- A change of the value at the key, if there is one.
  unfoldable pub update_at : String → (V → V) → List (String × V) → List (String × V)
  update_at key f [] = []
  update_at key f ((k, v) ∷ rest) =
      if str_eq k key then (k, f v) ∷ rest else (k, v) ∷ update_at key f rest

  -- `delete dict[key]`.
  unfoldable pub delete : String → List (String × V) → List (String × V)
  delete key [] = []
  delete key ((k, v) ∷ rest) = if str_eq k key then rest else (k, v) ∷ delete key rest

  -- A change of every value.
  unfoldable pub map_values : (V → V) → List (String × V) → List (String × V)
  map_values f [] = []
  map_values f ((k, v) ∷ rest) = (k, f v) ∷ map_values f rest

  pub lookup-update_at :
      (key j : String) (f : V → V) (d : List (String × V)) (v : V)
      → lookup key d ≡ some v
      → lookup j (update_at key f d) ≡ (if str_eq key j then some (f v) else lookup j d)
  unfolding lookup update_at
  lookup-update_at key j f [] v h = ground arith
  lookup-update_at key j f ((k, w) ∷ rest) v h =
      ground (arith, eq_iff k key, eq_iff k j, eq_iff key j, lookup-update_at key j f rest v)

  pub update_at_missing :
      (key : String) (f : V → V) (d : List (String × V))
      → lookup key d ≡ none
      → update_at key f d ≡ d
  unfolding lookup update_at
  update_at_missing key f [] h = refl
  update_at_missing key f ((k, w) ∷ rest) h = ground (arith, update_at_missing key f rest)

  pub update_at-update_at :
      (key : String) (f g : V → V) (d : List (String × V))
      → update_at key f (update_at key g d) ≡ update_at key (λ v. f (g v)) d
  unfolding update_at
  update_at-update_at key f g [] = refl
  update_at-update_at key f g ((k, w) ∷ rest) = ground (arith, update_at-update_at key f g rest)

  pub lookup-insert :
      (key j : String) (v : V) (d : List (String × V))
      → lookup key d ≡ none
      → lookup j (insert key v d) ≡ (if str_eq key j then some v else lookup j d)
  unfolding lookup insert
  lookup-insert key j v [] h = refl
  lookup-insert key j v ((k, w) ∷ rest) h =
      ground (arith, eq_iff k key, eq_iff k j, eq_iff key j, lookup-insert key j v rest)

  -- No key stands twice.
  abbrev pub HasDistinctKeys : List (String × V) → Type ℓ
  HasDistinctKeys [] = Unit
  HasDistinctKeys ((k, v) ∷ rest) = (lookup k rest ≡ none) × HasDistinctKeys rest

  pub is_some-lookup-update_at :
      (key j : String) (f : V → V) (d : List (String × V))
      → is_some (lookup j (update_at key f d)) ≡ is_some (lookup j d)
  unfolding lookup update_at
  is_some-lookup-update_at key j f [] = refl
  is_some-lookup-update_at key j f ((k, w) ∷ rest) =
      ground (arith, eq_iff k key, eq_iff k j, is_some-lookup-update_at key j f rest)

  pub is_some-lookup-map_values :
      (j : String) (f : V → V) (d : List (String × V))
      → is_some (lookup j (map_values f d)) ≡ is_some (lookup j d)
  unfolding lookup map_values
  is_some-lookup-map_values j f [] = refl
  is_some-lookup-map_values j f ((k, w) ∷ rest) = ground (arith, is_some-lookup-map_values j f rest)

  lookup-delete-none :
      (key j : String) (d : List (String × V)) → lookup j d ≡ none → lookup j (delete key d) ≡ none
  unfolding lookup delete
  lookup-delete-none key j [] h = refl
  lookup-delete-none key j ((k, w) ∷ rest) h = ground (arith, lookup-delete-none key j rest)

  pub insert-HasDistinctKeys :
      (key : String) (v : V) (d : List (String × V))
      → lookup key d ≡ none
      → HasDistinctKeys d
      → HasDistinctKeys (insert key v d)
  unfolding lookup insert
  insert-HasDistinctKeys key v [] h u = (refl, tt)
  insert-HasDistinctKeys key v ((k, w) ∷ rest) h (u, us) = ground (
    arith,
    insert-HasDistinctKeys key v rest,
    lookup-insert key k v rest,
    eq_iff k key,
    eq_iff key k,
  )

  pub update_at-HasDistinctKeys :
      (key : String) (f : V → V) (d : List (String × V))
      → HasDistinctKeys d
      → HasDistinctKeys (update_at key f d)
  unfolding lookup update_at
  update_at-HasDistinctKeys key f [] u = tt
  update_at-HasDistinctKeys key f ((k, w) ∷ rest) (u, us) =
      ground (arith, update_at-HasDistinctKeys key f rest us, is_some-lookup-update_at key k f rest)

  pub delete-HasDistinctKeys :
      (key : String) (d : List (String × V)) → HasDistinctKeys d → HasDistinctKeys (delete key d)
  unfolding lookup delete
  delete-HasDistinctKeys key [] u = tt
  delete-HasDistinctKeys key ((k, w) ∷ rest) (u, us) =
      ground (arith, delete-HasDistinctKeys key rest us, lookup-delete-none key k rest u)

  pub map_values-HasDistinctKeys :
      (f : V → V) (d : List (String × V)) → HasDistinctKeys d → HasDistinctKeys (map_values f d)
  unfolding lookup map_values
  map_values-HasDistinctKeys f [] u = tt
  map_values-HasDistinctKeys f ((k, w) ∷ rest) (u, us) =
      ground (arith, map_values-HasDistinctKeys f rest us, is_some-lookup-map_values k f rest)

-- A predicate of each key with its value.
module _ {ℓ κ} {V : Type ℓ} (P : String → V → Type κ) where
  abbrev pub Entries : List (String × V) → Type κ
  Entries [] = Unit
  Entries ((k, v) ∷ rest) = P k v × Entries rest

  pub Entries-insert :
      (key : String) (v : V) (d : List (String × V))
      → P key v
      → Entries d
      → Entries (insert key v d)
  unfolding insert
  Entries-insert key v [] p h = (p, tt)
  Entries-insert key v (e ∷ rest) p (q, h) = (q, Entries-insert key v rest p h)

  pub Entries-lookup :
      (key : String) (d : List (String × V)) (v : V) → Entries d → lookup key d ≡ some v → P key v
  unfolding lookup
  Entries-lookup key [] v h found = cc
  Entries-lookup key ((k, w) ∷ rest) v (p, h) found = elim (Bool-cases (str_eq k key)) [
    | inl same ↦
        let e : w ≡ v = ground arith in
        subst (λ x. P key x) e (subst (λ j. P j w) ((eq_iff k key).0 same) p)
    | inr differs ↦ Entries-lookup key rest v h (ground arith)
  ]

  pub Entries-update_at :
      (key : String) (f : V → V) (d : List (String × V))
      → ((v : V) → lookup key d ≡ some v → P key v → P key (f v))
      → Entries d
      → Entries (update_at key f d)
  unfolding lookup update_at
  Entries-update_at key f [] keep h = tt
  Entries-update_at key f ((k, w) ∷ rest) keep (p, h) = elim (Bool-cases (str_eq k key)) [
    | inl same ↦
        let e : k ≡ key = (eq_iff k key).0 same in
        rw same (subst (λ j. P j (f w)) (sym e) (keep w (rw same) (subst (λ j. P j w) e p)), h)
    | inr differs ↦
        rw differs (p, Entries-update_at key f rest (λ v found. keep v (rw differs found)) h)
  ]

  pub Entries-delete : (key : String) (d : List (String × V)) → Entries d → Entries (delete key d)
  unfolding delete
  Entries-delete key [] h = tt
  Entries-delete key ((k, w) ∷ rest) (p, h) = elim (Bool-cases (str_eq k key)) [
    | inl same ↦ rw same h
    | inr differs ↦ rw differs (p, Entries-delete key rest h)
  ]

  pub Entries-map_values :
      (f : V → V) (d : List (String × V))
      → ((k : String) (v : V) → P k v → P k (f v))
      → Entries d
      → Entries (map_values f d)
  unfolding map_values
  Entries-map_values f [] keep h = tt
  Entries-map_values f ((k, w) ∷ rest) keep (p, h) = (keep k w p, Entries-map_values f rest keep h)

module _ {ℓ} {V : Type ℓ} where
  pub update_at-head :
      (key : String) (f : V → V) (v : V) (d : List (String × V))
      → update_at key f ((key, v) ∷ d) ≡ (key, f v) ∷ d
  unfolding update_at
  update_at-head key f v d = ground (arith, eq_refl key)

  pub update_at-unchanged : (key : String) (d : List (String × V)) → update_at key (λ v. v) d ≡ d
  unfolding update_at
  update_at-unchanged key [] = refl
  update_at-unchanged key ((k, w) ∷ rest) = ground (arith, update_at-unchanged key rest)
