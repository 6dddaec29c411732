-- ===== src/Value/Convert.antt =====
-- Python's `str`, `int` and truth of a wire value. `str` of an array or an object is the parameter
-- `repr`; the JSON decoder makes no infinite float, so `int` of a float does not fail.
use real_time_distributed_si.Prelude.{
  ℕ, ◌+◌, ℤ, pos, negsuc, String, Bool, true, false, Option, none, some, [], ◌∷◌, ◌||◌, ◌==◌,
  if◌then◌else◌, fmt, str, int_of, strip, is_nonempty,
}
use Prim.Native.Char.{code}
use real_time_distributed_si.Floats.{Floats, flt, of_ℕ}
use real_time_distributed_si.Value.{
  Value, null, bool, int, float, text, list, dict, nil, cons, end, field,
}

abbrev pub int_text : ℤ → String
int_text (pos n) = str n
int_text (negsuc n) = fmt ("-" ∷ str (n + 1) ∷ [])

abbrev negated : ℕ → ℤ
negated Prim.Native.Nat.zero = pos 0
negated (Prim.Native.Nat.suc n) = negsuc n

-- what is left of a numeral when each underscore between two digits is dropped
abbrev drop_underscores : Bool → String → Option String
drop_underscores after_digit String.[] = if after_digit then some "" else none
drop_underscores after_digit (String.◌∷◌ c s) =
    let rest = drop_underscores false s in
    let more = drop_underscores true s in
    if code c == b'_'
    then (if after_digit then rest else none)
    else elim more [ none ↦ none | some t ↦ some (String.◌∷◌ c t) ]

abbrev unsigned : String → Option ℕ
unsigned s = elim (drop_underscores false s) [ none ↦ none | some t ↦ int_of t ]

abbrev positive : Option ℕ → Option ℤ
positive none = none
positive (some n) = some (pos n)

abbrev negative : Option ℕ → Option ℤ
negative none = none
negative (some n) = some (negated n)

abbrev signed : String → Option ℤ
signed String.[] = none
signed (String.◌∷◌ c s) =
    if code c == b'-'
    then negative (unsigned s)
    else if code c == b'+'
    then positive (unsigned s)
    else positive (unsigned (String.◌∷◌ c s))

-- `int(s)`; none for the ValueError
unfoldable pub int_of_text : String → Option ℤ
unfolding strip
int_of_text s = signed (strip s)

abbrev is_zero : ℤ → Bool
is_zero (pos n) = n == 0
is_zero (negsuc n) = false

module _ {R : Type 0} ⦃F : Floats R⦄ where
  -- `str(v)`
  unfoldable pub value_text : (Value R → String) → Value R → String
  value_text repr null = "None"
  value_text repr (bool true) = "True"
  value_text repr (bool false) = "False"
  value_text repr (int n) = int_text n
  value_text repr (float x) = F.shown x
  value_text repr (text s) = s
  value_text repr (list vs) = repr (list vs)
  value_text repr (dict d) = repr (dict d)

  -- `int(v)`; none for the TypeError or the ValueError
  unfoldable pub int_value : Value R → Option ℤ
  unfolding int_of_text
  int_value null = none
  int_value (bool true) = some (pos 1)
  int_value (bool false) = some (pos 0)
  int_value (int n) = some n
  int_value (float x) = some (F.trunc x)
  int_value (text s) = int_of_text s
  int_value (list vs) = none
  int_value (dict d) = none

  -- `bool(v)`
  unfoldable pub value_truthy : Value R → Bool
  value_truthy null = false
  value_truthy (bool b) = b
  value_truthy (int n) = if is_zero n then false else true
  value_truthy (float x) = flt x (of_ℕ 0) || flt (of_ℕ 0) x
  value_truthy (text s) = is_nonempty s
  value_truthy (list nil) = false
  value_truthy (list (cons v vs)) = true
  value_truthy (dict end) = false
  value_truthy (dict (field k v d)) = true
