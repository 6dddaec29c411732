-- ===== src/Prelude/Member.antt =====
-- Membership with the place of the element, against filters and predicates on all elements.
use Prim.Native.Nat.{◌≤◌}
use mathlib.Core.Path.{◌≡◌, refl, ap, subst, sym, ◌∙◌}
use mathlib.Core.Bool.{Bool, true, false, false≢true}
use mathlib.Core.Logic.{◌⊎◌, inl, inr}
use mathlib.Core.List.{List, [], ◌∷◌, map}
use native.Mathlib.Omega.{arith}
use real_time_distributed_si.Prelude.Tests.{if◌then◌else◌, Bool-cases}
use real_time_distributed_si.Prelude.Lists.{length, filter, any, All, All-map}

module _ {A : Type 0} where
  abbrev pub In : A → List A → Type 0
  In a [] = ⊥
  In a (x ∷ xs) = (a ≡ x) ⊎ In a xs

  pub In-filter : (p : A → Bool) (a : A) (xs : List A) → In a (filter p xs) → In a xs × (p a ≡ true)
  unfolding filter
  In-filter p a [] h = absurd h
  In-filter p a (x ∷ xs) h = elim (Bool-cases (p x)) [
    | inl keep ↦
        kept (In-filter p a xs) keep
          (subst (λ b. In a (if b then x ∷ filter p xs else filter p xs)) keep h)
    | inr skip ↦
        skipped
          (In-filter p a xs (subst (λ b. In a (if b then x ∷ filter p xs else filter p xs)) skip h))
  ]
    where
      kept :
          (In a (filter p xs) → In a xs × (p a ≡ true))
          → p x ≡ true
          → In a (x ∷ filter p xs)
          → In a (x ∷ xs) × (p a ≡ true)
      kept ih k (inl e) = (inl e, subst (λ y. p y ≡ true) (sym e) k)
      kept ih k (inr r) = (inr (ih r).0, (ih r).1)

      skipped : In a xs × (p a ≡ true) → In a (x ∷ xs) × (p a ≡ true)
      skipped r = (inr r.0, r.1)

  pub All-In : (P : A → Type 0) (a : A) (xs : List A) → All P xs → In a xs → P a
  All-In P a [] h i = absurd i
  All-In P a (x ∷ xs) h (inl e) = subst P (sym e) h.0
  All-In P a (x ∷ xs) h (inr i) = All-In P a xs h.1 i

  pub All-of_In : (P : A → Type 0) (xs : List A) → ((a : A) → In a xs → P a) → All P xs
  All-of_In P [] f = tt
  All-of_In P (x ∷ xs) f = (f x (inl refl), All-of_In P xs (λ a i. f a (inr i)))

  pub any-false : (p : A → Bool) (xs : List A) → All (λ x. p x ≡ false) xs → any p xs ≡ false
  unfolding any
  any-false p [] h = refl
  any-false p (x ∷ xs) h = ground (arith, any-false p xs h.1)

  pub filter_none : (p : A → Bool) (xs : List A) → All (λ x. p x ≡ false) xs → filter p xs ≡ []
  unfolding filter
  filter_none p [] h = refl
  filter_none p (x ∷ xs) h = ground (arith, filter_none p xs h.1)

  -- what an empty filter says of each element
  pub filter-eq-nil : (p : A → Bool) (xs : List A) → filter p xs ≡ [] → All (λ x. p x ≡ false) xs
  unfolding filter
  filter-eq-nil p [] h = tt
  filter-eq-nil p (x ∷ xs) h = elim (Bool-cases (p x)) [
    | inl keep ↦ absurd (ground arith)
    | inr skip ↦ (skip, filter-eq-nil p xs (ground arith))
  ]

  nil_of_length : (xs : List A) → length xs ≤ 0 → xs ≡ []
  nil_of_length [] h = refl
  nil_of_length (x ∷ xs) h = absurd (omega arith)

  -- where one element at most passes, an element that passes is the only one
  pub filter-only :
      (p : A → Bool) (a : A) (xs : List A)
      → length (filter p xs) ≤ 1
      → In a xs
      → p a ≡ true
      → All (λ x. (a ≡ x) ⊎ (p x ≡ false)) xs
  unfolding filter
  filter-only p a [] h i e = tt
  filter-only p a (x ∷ xs) h i e = elim (Bool-cases (p x)) [
    | inl keep ↦ first keep (filter-eq-nil p xs (nil_of_length _ (ground arith))) i
    | inr skip ↦ later skip (filter-only p a xs (ground arith)) i
  ]
    where
      first :
          p x ≡ true
          → All (λ y. p y ≡ false) xs
          → In a (x ∷ xs)
          → All (λ y. (a ≡ y) ⊎ (p y ≡ false)) (x ∷ xs)
      first k none_pass (inl q) = (inl q, All-map (λ y. p y ≡ false) _ (λ y f. inr f) xs none_pass)
      first k none_pass (inr r) =
          absurd (false≢true (sym (All-In (λ y. p y ≡ false) a xs none_pass r) ∙ e))

      later :
          p x ≡ false
          → (In a xs → p a ≡ true → All (λ y. (a ≡ y) ⊎ (p y ≡ false)) xs)
          → In a (x ∷ xs)
          → All (λ y. (a ≡ y) ⊎ (p y ≡ false)) (x ∷ xs)
      later skip rec (inl q) = absurd (false≢true (sym skip ∙ ap p (sym q) ∙ e))
      later skip rec (inr r) = (inr skip, rec r e)

  pub length-filter_pos :
      (p : A → Bool) (a : A) (xs : List A) → In a xs → p a ≡ true → 1 ≤ length (filter p xs)
  unfolding filter
  length-filter_pos p a [] i e = absurd i
  length-filter_pos p a (x ∷ xs) (inl q) e = ground (arith, ap p q)
  length-filter_pos p a (x ∷ xs) (inr i) e = ground (arith, length-filter_pos p a xs i e)

  pub any-true : (p : A → Bool) (a : A) (xs : List A) → In a xs → p a ≡ true → any p xs ≡ true
  unfolding any
  any-true p a [] i e = absurd i
  any-true p a (x ∷ xs) (inl q) e = ground (arith, ap p q)
  any-true p a (x ∷ xs) (inr i) e = ground (arith, any-true p a xs i e)

pub In-map :
    {A B : Type 0} (f : A → B) (b : B) (xs : List A)
    → In b (map f xs)
    → (a : A) × (b ≡ f a) × In a xs
In-map f b [] i = absurd i
In-map f b (x ∷ xs) (inl e) = (x, e, inl refl)
In-map f b (x ∷ xs) (inr i) = let (a, e, j) = In-map f b xs i in (a, e, inr j)
