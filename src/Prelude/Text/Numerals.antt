-- ===== src/Prelude/Text/Numerals.antt =====
-- Decimal numerals: what `str` prints, `int` reads back.
use Prim.Native.Nat.{ℕ, zero, suc, ◌+◌, ◌-◌, ◌*◌, ◌/◌, ◌%◌, ◌<◌}
use Prim.Native.Char.{code}
use Prim.Native.String.{String, ◌++◌}
use mathlib.Core.Path.{◌≡◌, refl, ap, ◌∙◌}
use mathlib.Core.Bool.{Bool, true, ◌&&◌}
use mathlib.Core.Option.{some}
use mathlib.Core.Logic.{inl, inr}
use native.Mathlib.Omega.{arith}
use text.Mathlib.TextLemmas.{nil-append, cons-append}
use real_time_distributed_si.Prelude.Tests.{leb, ltb, Bool-cases}
use real_time_distributed_si.Prelude.Text.{
  is_nonempty, digit_at, digits_of, digits_value, int_of, str,
}

digits_value-append :
    (acc a : ℕ) (s t : String)
    → digits_value acc s ≡ some a
    → digits_value acc (s ++ t) ≡ digits_value a t
unfolding digits_value
digits_value-append acc a String.[] t h = rw nil-append (ground arith)
digits_value-append acc a (String.◌∷◌ c s) t h =
    rw cons-append (ground (arith, digits_value-append (acc * 10 + (code c - 48)) a s t))

-- one digit
digits_value-digit_at :
    (a d : ℕ) → d < 10 → digits_value a (digit_at "0123456789" d) ≡ some (a * 10 + d)
unfolding digits_value digit_at
digits_value-digit_at a zero h = refl
digits_value-digit_at a (suc zero) h = refl
digits_value-digit_at a (suc (suc zero)) h = refl
digits_value-digit_at a (suc (suc (suc zero))) h = refl
digits_value-digit_at a (suc (suc (suc (suc zero)))) h = refl
digits_value-digit_at a (suc (suc (suc (suc (suc zero))))) h = refl
digits_value-digit_at a (suc (suc (suc (suc (suc (suc zero)))))) h = refl
digits_value-digit_at a (suc (suc (suc (suc (suc (suc (suc zero))))))) h = refl
digits_value-digit_at a (suc (suc (suc (suc (suc (suc (suc (suc zero)))))))) h = refl
digits_value-digit_at a (suc (suc (suc (suc (suc (suc (suc (suc (suc zero))))))))) h = refl
digits_value-digit_at a (suc (suc (suc (suc (suc (suc (suc (suc (suc (suc d)))))))))) h =
    absurd (omega arith)

digits_value-digits_of : (fuel n : ℕ) → n < fuel → digits_value 0 (digits_of fuel n) ≡ some n
unfolding digits_of
digits_value-digits_of zero n h = absurd (omega arith)
digits_value-digits_of (suc fuel) n h = elim (Bool-cases (ltb n 10)) [
  | inl small ↦ rw small (digits_value-digit_at 0 n (ground arith) ∙ ap some (omega arith))
  | inr large ↦ rw large (
      digits_value-append 0 (n / 10) _ _ (digits_value-digits_of fuel (n / 10) (ground arith))
      ∙ digits_value-digit_at (n / 10) (n % 10) (omega arith)
      ∙ ap some (omega arith))
]

is_nonempty-digit_at : (d : ℕ) → d < 10 → is_nonempty (digit_at "0123456789" d) ≡ true
unfolding digit_at
is_nonempty-digit_at zero h = refl
is_nonempty-digit_at (suc zero) h = refl
is_nonempty-digit_at (suc (suc zero)) h = refl
is_nonempty-digit_at (suc (suc (suc zero))) h = refl
is_nonempty-digit_at (suc (suc (suc (suc zero)))) h = refl
is_nonempty-digit_at (suc (suc (suc (suc (suc zero))))) h = refl
is_nonempty-digit_at (suc (suc (suc (suc (suc (suc zero)))))) h = refl
is_nonempty-digit_at (suc (suc (suc (suc (suc (suc (suc zero))))))) h = refl
is_nonempty-digit_at (suc (suc (suc (suc (suc (suc (suc (suc zero)))))))) h = refl
is_nonempty-digit_at (suc (suc (suc (suc (suc (suc (suc (suc (suc zero))))))))) h = refl
is_nonempty-digit_at (suc (suc (suc (suc (suc (suc (suc (suc (suc (suc d)))))))))) h =
    absurd (omega arith)

is_nonempty-append_right : (s t : String) → is_nonempty t ≡ true → is_nonempty (s ++ t) ≡ true
is_nonempty-append_right String.[] t h = rw nil-append h
is_nonempty-append_right (String.◌∷◌ c s) t h = rw cons-append refl

is_nonempty-str : (n : ℕ) → is_nonempty (str n) ≡ true
unfolding str digits_of
is_nonempty-str n = elim (Bool-cases (ltb n 10)) [
  | inl small ↦ rw small (is_nonempty-digit_at n (ground arith))
  | inr large ↦ rw large (
      is_nonempty-append_right (digits_of n (n / 10)) _
        (is_nonempty-digit_at (n % 10) (omega arith)))
]

-- Every number is read back from its decimal numeral.
pub int_of-str : (n : ℕ) → int_of (str n) ≡ some n
unfolding int_of str
int_of-str n = rw (is_nonempty-str n) (digits_value-digits_of (suc n) n (omega arith))

-- every character is a decimal digit
unfoldable pub only_digits : String → Bool
only_digits String.[] = true
only_digits (String.◌∷◌ c s) = leb 48 (code c) && leb (code c) 57 && only_digits s

only_digits-append :
    (s t : String) → only_digits s ≡ true → only_digits t ≡ true → only_digits (s ++ t) ≡ true
unfolding only_digits
only_digits-append String.[] t h k = rw nil-append k
only_digits-append (String.◌∷◌ c s) t h k = rw cons-append (ground (arith, only_digits-append s t))

only_digits-digit_at : (d : ℕ) → d < 10 → only_digits (digit_at "0123456789" d) ≡ true
unfolding digit_at only_digits
only_digits-digit_at zero h = refl
only_digits-digit_at (suc zero) h = refl
only_digits-digit_at (suc (suc zero)) h = refl
only_digits-digit_at (suc (suc (suc zero))) h = refl
only_digits-digit_at (suc (suc (suc (suc zero)))) h = refl
only_digits-digit_at (suc (suc (suc (suc (suc zero))))) h = refl
only_digits-digit_at (suc (suc (suc (suc (suc (suc zero)))))) h = refl
only_digits-digit_at (suc (suc (suc (suc (suc (suc (suc zero))))))) h = refl
only_digits-digit_at (suc (suc (suc (suc (suc (suc (suc (suc zero)))))))) h = refl
only_digits-digit_at (suc (suc (suc (suc (suc (suc (suc (suc (suc zero))))))))) h = refl
only_digits-digit_at (suc (suc (suc (suc (suc (suc (suc (suc (suc (suc d)))))))))) h =
    absurd (omega arith)

only_digits-digits_of : (fuel n : ℕ) → n < fuel → only_digits (digits_of fuel n) ≡ true
unfolding digits_of
only_digits-digits_of zero n h = absurd (omega arith)
only_digits-digits_of (suc fuel) n h = elim (Bool-cases (ltb n 10)) [
  | inl small ↦ rw small (only_digits-digit_at n (ground arith))
  | inr large ↦ rw large (
      only_digits-append (digits_of fuel (n / 10)) _
        (only_digits-digits_of fuel (n / 10) (ground arith))
        (only_digits-digit_at (n % 10) (omega arith)))
]

pub only_digits-str : (n : ℕ) → only_digits (str n) ≡ true
unfolding str
only_digits-str n = only_digits-digits_of (suc n) n (omega arith)
