-- ===== src/Regex/Fuel.antt =====
-- The fuel of a repetition is enough.
use real_time_distributed_si.Prelude.{
  ℕ, zero, suc, ◌≤◌, ◌<◌, Bool, ◌≡◌, refl, sym, ap, Option, List, [], ◌∷◌, arith, length, All,
  Bool-cases, inl, inr,
}
use real_time_distributed_si.Regex.{one, star, Position, bind_all, repeat_ends, step_one, ends}

-- every end of a step is further on than its start
abbrev pub Advances : (Position → List Position) → Type 0
Advances step = (p : Position) → All (λ e. length e.after < length p.after) (step p)

no_end : (n : ℕ) (es : List Position) → n ≤ 0 → All (λ e. length e.after < n) es → es ≡ []
no_end n [] h a = refl
no_end n (e ∷ es) h a = absurd (omega (arith, h, a.0))

bind_all-eq :
    (n : ℕ) (f g : Position → List Position) (es : List Position)
    → ((e : Position) → length e.after < n → f e ≡ g e)
    → All (λ e. length e.after < n) es
    → bind_all f es ≡ bind_all g es
unfolding bind_all
bind_all-eq n f g [] h a = refl
bind_all-eq n f g (e ∷ es) h a = rw (h e a.0, bind_all-eq n f g es h a.1) refl

-- A repetition of a step that reads at least one character finds the same ends with any fuel that is at
-- least the number of characters left.
pub repeat_ends_enough :
    (f g : ℕ) (step : Position → List Position) (p : Position)
    → Advances step
    → length p.after ≤ f
    → length p.after ≤ g
    → repeat_ends f step p ≡ repeat_ends g step p
unfolding repeat_ends bind_all
repeat_ends_enough zero zero step p adv h k = refl
repeat_ends_enough zero (suc g) step p adv h k =
    ap (λ es. p ∷ bind_all (repeat_ends g step) es)
      (sym (no_end (length p.after) (step p) h (adv p)))
repeat_ends_enough (suc f) zero step p adv h k =
    ap (λ es. p ∷ bind_all (repeat_ends f step) es) (no_end (length p.after) (step p) k (adv p))
repeat_ends_enough (suc f) (suc g) step p adv h k =
    ap (λ es. p ∷ es)
      (bind_all-eq (length p.after) (repeat_ends f step) (repeat_ends g step) (step p)
        (λ e lt. repeat_ends_enough f g step e adv (omega (arith, h, lt)) (omega (arith, k, lt)))
        (adv p))

one-Advances : (test : ℕ → Bool) → Advances (ends (one test))
unfolding ends step_one
one-Advances test p = advances p.before p.after
  where
    advances :
        (before : Option ℕ) (after : List ℕ)
        → All (λ e. length e.after < length after) (step_one test before after)
    advances before [] = tt
    advances before (c ∷ cs) = elim (Bool-cases (test c)) [
      | inl yes_ ↦ rw yes_ (omega arith, tt)
      | inr no_ ↦ rw no_ tt
    ]

-- A repeated character class has the same ends with any fuel from the number of characters left on:
-- the fuel that a match gives it is enough.
pub star_enough :
    (test : ℕ → Bool) (p : Position) (fuel : ℕ)
    → length p.after ≤ fuel
    → repeat_ends fuel (ends (one test)) p ≡ ends (star (one test)) p
unfolding ends
star_enough test p fuel h =
    repeat_ends_enough fuel (length p.after) (ends (one test)) p (one-Advances test) h (omega arith)
