-- ===== src/Query/Sums.antt =====
-- Sums over lists, and the exchange of two sums.
use real_time_distributed_si.Prelude.{
  ℕ, ◌+◌, ◌≡◌, refl, Bool, List, [], ◌∷◌, arith, if◌then◌else◌, filter, length, map,
}

module _ {A : Type 0} where
  -- SUM
  unfoldable pub sum_of : (A → ℕ) → List A → ℕ
  sum_of w [] = 0
  sum_of w (x ∷ xs) = w x + sum_of w xs

  pub sum_of-zero : (xs : List A) → sum_of (λ x. 0) xs ≡ 0
  unfolding sum_of
  sum_of-zero [] = refl
  sum_of-zero (x ∷ xs) = omega (arith, sum_of-zero xs)

  pub sum_of-add :
      (v w : A → ℕ) (xs : List A) → sum_of (λ x. v x + w x) xs ≡ sum_of v xs + sum_of w xs
  unfolding sum_of
  sum_of-add v w [] = refl
  sum_of-add v w (x ∷ xs) = omega (arith, sum_of-add v w xs)

  pub sum_of-ext : (v w : A → ℕ) (xs : List A) → ((x : A) → v x ≡ w x) → sum_of v xs ≡ sum_of w xs
  unfolding sum_of
  sum_of-ext v w [] h = refl
  sum_of-ext v w (x ∷ xs) h = omega (arith, h x, sum_of-ext v w xs h)

  pub sum_of-filter :
      (w : A → ℕ) (p : A → Bool) (xs : List A)
      → sum_of w (filter p xs) ≡ sum_of (λ x. if p x then w x else 0) xs
  unfolding sum_of filter
  sum_of-filter w p [] = refl
  sum_of-filter w p (x ∷ xs) = ground (arith, sum_of-filter w p xs)

  pub sum_of-one : (xs : List A) → sum_of (λ x. 1) xs ≡ length xs
  unfolding sum_of
  sum_of-one [] = refl
  sum_of-one (x ∷ xs) = omega (arith, sum_of-one xs)

  pub sum_of-count :
      (p : A → Bool) (xs : List A) → sum_of (λ x. if p x then 1 else 0) xs ≡ length (filter p xs)
  unfolding sum_of filter
  sum_of-count p [] = refl
  sum_of-count p (x ∷ xs) = ground (arith, sum_of-count p xs)

pub sum_of-map :
    {A B : Type 0} (w : B → ℕ) (f : A → B) (xs : List A)
    → sum_of w (map f xs) ≡ sum_of (λ x. w (f x)) xs
unfolding sum_of
sum_of-map w f [] = refl
sum_of-map w f (x ∷ xs) = omega (arith, sum_of-map w f xs)

pub sum_of-swap :
    {A B : Type 0} (g : A → B → ℕ) (xs : List A) (ys : List B)
    → sum_of (λ x. sum_of (g x) ys) xs ≡ sum_of (λ y. sum_of (λ x. g x y) xs) ys
unfolding sum_of
sum_of-swap g [] ys = omega (arith, sum_of-zero ys)
sum_of-swap g (x ∷ xs) ys =
    omega (arith, sum_of-swap g xs ys, sum_of-add (g x) (λ y. sum_of (λ z. g z y) xs) ys)
