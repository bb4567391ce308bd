-- ===== src/Main/ImagesPage/Lookups.antt =====
-- How slideshowImages.tsx and slideshowImagesGrid.tsx find pictures by their ids and positions.
use mathlib.Core.List.{Permᴰ}
use mathlib.Core.List.Permᴰ
use shareframe_board.Common.{
  ℕ, zero, suc, ◌<◌, ◌≡◌, refl, sym, ap, ◌∙◌, Bool, true, false, ◌||◌, Option, is_some, none, some,
  List, [], ◌∷◌, length, if◌then◌else◌, arith, Bool-cases, inl, inr,
}
use shareframe_board.Common.Int.{ℤ, pos, negsuc}
use shareframe_board.SlideshowImages.{SlideshowImage}
use shareframe_board.Main.ImagesPage.{
  same_id, ids_of, by_id, images_with, index_of, taken, without, insert_at,
}

abbrev pub has : ℤ → List ℤ → Bool
has id [] = false
has id (x ∷ xs) = same_id x id || has id xs

same_id-eq : (a b : ℤ) → same_id a b ≡ true → a ≡ b
same_id-eq (pos a) (pos b) h = ap pos (ground arith)
same_id-eq (pos a) (negsuc b) h = ground arith
same_id-eq (negsuc a) (pos b) h = ground arith
same_id-eq (negsuc a) (negsuc b) h = ap negsuc (ground arith)

pub same_id-same : (a : ℤ) → same_id a a ≡ true
same_id-same a = ground arith

pub by_id-id :
    (images : List SlideshowImage) (id : ℤ) (img : SlideshowImage)
    → by_id images id ≡ some img
    → img.id ≡ id
unfolding by_id
by_id-id [] id img h = ground arith
by_id-id (x ∷ images) id img h =
    go (by_id images id) refl (same_id x.id id) refl h (by_id-id images id img)
  where
    go :
        (later : Option SlideshowImage)
        → by_id images id ≡ later
        → (b : Bool) → same_id x.id id ≡ b
        → elim later [ some later ↦ some later | none ↦ if b then some x else none ] ≡ some img
        → (by_id images id ≡ some img → img.id ≡ id)
        → img.id ≡ id
    go (some later) e b eb h rec = rec (e ∙ h)
    go none e true eb h rec =
        sym (ap (λ o. elim o [ some i ↦ i.id | none ↦ x.id ]) h) ∙ same_id-eq x.id id eb
    go none e false eb h rec = ground arith

pub by_id-has :
    (images : List SlideshowImage) (id : ℤ) → is_some (by_id images id) ≡ has id (ids_of images)
unfolding by_id
by_id-has [] id = refl
by_id-has (x ∷ images) id = ground (arith, by_id-has images id)

or_swap : (p q r : Bool) → (p || (q || r)) ≡ (q || (p || r))
or_swap p q r = ground arith

pub has-Perm : (id : ℤ) {xs ys : List ℤ} → Permᴰ xs ys → has id xs ≡ has id ys
has-Perm id Permᴰ.nil = refl
has-Perm id (Permᴰ.cons {b = b} {l₁ = l₁} e d) =
    ap (λ x. same_id x id || has id l₁) e ∙ ap (same_id b id ||◌) (has-Perm id d)
has-Perm id (Permᴰ.swap {a = a} {b = b} {a' = a'} {l = l} e f) =
    or_swap (same_id a id) (same_id b id) (has id l)
    ∙ ap (λ x. same_id x id || (same_id a id || has id l)) f
    ∙ ap (λ x. same_id a' id || (same_id x id || has id l)) e
has-Perm id (Permᴰ.trans d e) = has-Perm id d ∙ has-Perm id e

-- Every one of the ids belongs to a picture.
abbrev pub AreKnown : List SlideshowImage → List ℤ → Type 0
AreKnown images [] = Unit
AreKnown images (id ∷ ids) = (has id (ids_of images) ≡ true) × AreKnown images ids

pub AreKnown-has :
    (images : List SlideshowImage) (ids : List ℤ)
    → ((id : ℤ) → has id ids ≡ true → has id (ids_of images) ≡ true)
    → AreKnown images ids
AreKnown-has images [] h = tt
AreKnown-has images (id ∷ ids) h =
    (h id (ground (arith, same_id-same id)), AreKnown-has images ids (λ i m. h i (ground arith)))

pub ids_of-images_with :
    (images : List SlideshowImage) (ids : List ℤ)
    → AreKnown images ids
    → ids_of (images_with images ids) ≡ ids
unfolding images_with
ids_of-images_with images [] k = refl
ids_of-images_with images (id ∷ ids) (h, k) =
    go (by_id images id) refl (ids_of-images_with images ids k)
  where
    go :
        (found : Option SlideshowImage)
        → by_id images id ≡ found
        → ids_of (images_with images ids) ≡ ids
        → ids_of
            (elim found [ some img ↦ img ∷ images_with images ids | none ↦ images_with images ids ])
          ≡ id ∷ ids
    go none e rest = ground (arith, by_id-has images id)
    go (some img) e rest =
        ap (◌∷ ids_of (images_with images ids)) (by_id-id images id img e) ∙ ap (id ∷◌) rest

pub index_of-has :
    (xs : List ℤ) (id : ℤ) → has id xs ≡ true → (k : ℕ) × (index_of xs id ≡ pos k) × (k < length xs)
unfolding index_of
index_of-has [] id h = ground arith
index_of-has (x ∷ xs) id h = elim (Bool-cases (same_id x id)) [
  | inl e ↦ (zero, rw e refl, ground arith)
  | inr e ↦
      let (k, i, l) = index_of-has xs id (ground arith) in (suc k, rw (e, i) refl, ground arith)
]

pub taken-length : (n : ℕ) (xs : List ℤ) → n < length xs → (x : ℤ) × (taken n xs ≡ some x)
taken-length n [] h = ground arith
taken-length zero (x ∷ xs) h = (x, refl)
taken-length (suc n) (x ∷ xs) h = taken-length n xs (ground arith)

pub insert_at-Perm : (n : ℕ) (x : ℤ) (xs : List ℤ) → Permᴰ (insert_at n x xs) (x ∷ xs)
insert_at-Perm zero x xs = Permᴰ.refl (x ∷ xs)
insert_at-Perm (suc n) x [] = Permᴰ.refl (x ∷ [])
insert_at-Perm (suc n) x (y ∷ xs) =
    Permᴰ.trans (Permᴰ.cons refl (insert_at-Perm n x xs)) (Permᴰ.swap refl refl)

pub without-Perm : (n : ℕ) (x : ℤ) (xs : List ℤ) → taken n xs ≡ some x → Permᴰ (x ∷ without n xs) xs
without-Perm n x [] h = ground arith
without-Perm zero x (y ∷ xs) h = Permᴰ.cons (ground arith) (Permᴰ.refl xs)
without-Perm (suc n) x (y ∷ xs) h =
    Permᴰ.trans (Permᴰ.swap refl refl) (Permᴰ.cons refl (without-Perm n x xs h))
