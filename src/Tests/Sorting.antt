-- ===== src/Tests/Sorting.antt =====
-- A database for the tests: rows in the order of the table, and a stable insertion sort for ORDER BY.
use real_time_distributed_si.Prelude.{
  ℕ, refl, Bool, List, [], ◌∷◌, arith, if◌then◌else◌, leb, contains, All, All-map, Bool-cases, inl,
  inr,
}
use mathlib.Core.List.{Permᴰ}
use mathlib.Core.List.Permᴰ.{refl as perm_refl}
use real_time_distributed_si.Query.{Database, IsAscending, IsDescending}

module _ {A : Type 0} (before : A → A → Bool) where
  abbrev pub insert_by : A → List A → List A
  insert_by x [] = x ∷ []
  insert_by x (y ∷ ys) = let rest = insert_by x ys in if before x y then x ∷ y ∷ ys else y ∷ rest

  abbrev pub sort_by : List A → List A
  sort_by [] = []
  sort_by (x ∷ xs) = insert_by x (sort_by xs)

  insert_by-perm : (x : A) (ys : List A) → Permᴰ (insert_by x ys) (x ∷ ys)
  insert_by-perm x [] = perm_refl (x ∷ [])
  insert_by-perm x (y ∷ ys) = elim (Bool-cases (before x y)) [
    | inl first ↦ rw first (perm_refl (x ∷ y ∷ ys))
    | inr later ↦
        rw later (Permᴰ.trans (Permᴰ.cons refl (insert_by-perm x ys)) (Permᴰ.swap refl refl))
  ]

  pub sort_by-perm : (xs : List A) → Permᴰ (sort_by xs) xs
  sort_by-perm [] = Permᴰ.nil
  sort_by-perm (x ∷ xs) =
      Permᴰ.trans (insert_by-perm x (sort_by xs)) (Permᴰ.cons refl (sort_by-perm xs))

module _ {A : Type 0} (k : A → ℕ) where
  abbrev pub ascending : A → A → Bool
  ascending x y = leb (k x) (k y)

  abbrev pub descending : A → A → Bool
  descending x y = leb (k y) (k x)

  insert-All :
      (P : A → Type 0) (before : A → A → Bool) (x : A) (ys : List A)
      → P x
      → All P ys
      → All P (insert_by before x ys)
  insert-All P before x [] p h = (p, tt)
  insert-All P before x (y ∷ ys) p h = elim (Bool-cases (before x y)) [
    | inl first ↦ rw first (p, h)
    | inr later ↦ rw later (h.0, insert-All P before x ys p h.1)
  ]

  insert-IsAscending :
      (x : A) (ys : List A) → IsAscending k ys → IsAscending k (insert_by ascending x ys)
  insert-IsAscending x [] h = (tt, tt)
  insert-IsAscending x (y ∷ ys) h = elim (Bool-cases (ascending x y)) [
    | inl first ↦ rw first ((ground arith, All-map _ _ (λ z g. ground arith) ys h.0), h)
    | inr later ↦
        rw later (insert-All _ ascending x ys (ground arith) h.0, insert-IsAscending x ys h.1)
  ]

  insert-IsDescending :
      (x : A) (ys : List A) → IsDescending k ys → IsDescending k (insert_by descending x ys)
  insert-IsDescending x [] h = (tt, tt)
  insert-IsDescending x (y ∷ ys) h = elim (Bool-cases (descending x y)) [
    | inl first ↦ rw first ((ground arith, All-map _ _ (λ z g. ground arith) ys h.0), h)
    | inr later ↦
        rw later (insert-All _ descending x ys (ground arith) h.0, insert-IsDescending x ys h.1)
  ]

  pub sort-IsAscending : (xs : List A) → IsAscending k (sort_by ascending xs)
  sort-IsAscending [] = tt
  sort-IsAscending (x ∷ xs) = insert-IsAscending x (sort_by ascending xs) (sort-IsAscending xs)

  pub sort-IsDescending : (xs : List A) → IsDescending k (sort_by descending xs)
  sort-IsDescending [] = tt
  sort-IsDescending (x ∷ xs) = insert-IsDescending x (sort_by descending xs) (sort-IsDescending xs)

instance abbrev pub table : Database
table = record {
  ilike = contains;
  unordered = λ xs. xs;
  order_by = λ k xs. sort_by (ascending k) xs;
  order_by_desc = λ k xs. sort_by (descending k) xs;
  unordered-perm = λ xs. perm_refl xs;
  order_by-perm = λ k xs. sort_by-perm (ascending k) xs;
  order_by_desc-perm = λ k xs. sort_by-perm (descending k) xs;
  order_by-IsAscending = sort-IsAscending;
  order_by_desc-IsDescending = sort-IsDescending;
}
