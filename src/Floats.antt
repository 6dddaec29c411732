-- ===== src/Floats.antt =====
-- Python's `float` as a parameter: the carrier, the operations that the program calls, and the
-- laws of the order that proofs use. The carrier has no NaN, since no operation of the program
-- makes one. `min` and `max` are Python's, which keep their first argument on a tie.
use real_time_distributed_si.Prelude.{ℕ, ℤ, String, Bool, false, true, ◌≡◌, arith, if◌then◌else◌}

pub record Floats (R : Type 0) : Type 0 where
  -- `dec n k` is the literal n / 10^k, such as 0.85 for `dec 85 2`
  pub dec : ℕ → ℕ → R
  -- `float(n)`
  pub of_ℕ : ℕ → R
  pub add : R → R → R
  pub sub : R → R → R
  pub mul : R → R → R
  pub div : R → R → R
  pub neg : R → R
  pub sqrt : R → R
  pub exp : R → R
  -- `a < b`
  pub lt : R → R → Bool
  -- `round(x, k)`
  pub round : R → ℕ → R
  -- `f"{x:.{k}f}"`
  pub fixed : ℕ → R → String
  -- `str(x)`
  pub shown : R → String
  -- `int(x)`
  pub trunc : R → ℤ
  pub lt_irrefl : (a : R) → lt a a ≡ false
  pub lt_asym : (a b : R) → lt a b ≡ true → lt b a ≡ false
  pub lt_trans : (a b c : R) → lt a b ≡ true → lt b c ≡ true → lt a c ≡ true
  pub not_lt_trans : (a b c : R) → lt b a ≡ false → lt c b ≡ false → lt c a ≡ false
  -- rounding keeps the order, and a literal with k decimals
  pub round_mono : (a b : R) (k : ℕ) → lt b a ≡ false → lt (round b k) (round a k) ≡ false
  pub round-dec : (n k : ℕ) → round (dec n k) k ≡ dec n k

module _ {R : Type 0} ⦃F : Floats R⦄ where
  abbrev pub fadd : R → R → R
  fadd = F.add

  abbrev pub fsub : R → R → R
  fsub = F.sub

  abbrev pub fmul : R → R → R
  fmul = F.mul

  abbrev pub fdiv : R → R → R
  fdiv = F.div

  abbrev pub flt : R → R → Bool
  flt = F.lt

  abbrev pub dec : ℕ → ℕ → R
  dec = F.dec

  abbrev pub of_ℕ : ℕ → R
  of_ℕ = F.of_ℕ

  abbrev pub round : R → ℕ → R
  round = F.round

  abbrev pub fixed : ℕ → R → String
  fixed = F.fixed

  -- `min(a, b)`
  unfoldable pub fmin : R → R → R
  fmin a b = if F.lt b a then b else a

  -- `max(a, b)`
  unfoldable pub fmax : R → R → R
  fmax a b = if F.lt a b then b else a

  pub fmin-le_left : (a b : R) → F.lt a (fmin a b) ≡ false
  unfolding fmin
  fmin-le_left a b = ground (arith, F.lt_irrefl a, F.lt_asym b a)

  pub fmax-ge_left : (a b : R) → F.lt (fmax a b) a ≡ false
  unfolding fmax
  fmax-ge_left a b = ground (arith, F.lt_irrefl a, F.lt_asym a b)

  pub fmax-ge_right : (a b : R) → F.lt (fmax a b) b ≡ false
  unfolding fmax
  fmax-ge_right a b = ground (arith, F.lt_irrefl b)

  -- a value capped at a literal and rounded to its decimals stays under it
  pub round-fmin-le : (n k : ℕ) (x : R) → F.lt (F.dec n k) (F.round (fmin (F.dec n k) x) k) ≡ false
  round-fmin-le n k x = ground (
    arith,
    F.round_mono (fmin (F.dec n k) x) (F.dec n k) k,
    F.round-dec n k,
    fmin-le_left (F.dec n k) x,
  )
