-- ===== src/Prelude/Text.antt =====
-- Texts as the native strings: f-strings, comparison, and what the program uses of `str`.
-- Letters are changed in case as ASCII does it: a text with other cased letters keeps them.
use Prim.Native.Nat.{ℕ, zero, suc, ◌+◌, ◌-◌, ◌*◌, ◌/◌, ◌%◌}
use mathlib.Core.Option.{Option, none, some}
use Prim.Native.Char.{Char, code}
use Prim.Native.String.{String, ◌++◌}
use mathlib.Core.Path.{◌≡◌}
use mathlib.Core.Bool.{Bool, true, false, ◌&&◌, ◌||◌}
use mathlib.Core.List.{List, [], ◌∷◌}
use text.Mathlib.Text.{◌==◌ as text_eq, starts_with}
use text.Mathlib.TextPositions.{eq_refl}
pub mod Numerals
use real_time_distributed_si.Prelude.Tests.{◌==◌, ltb, leb, if◌then◌else◌}

-- `s == t` on texts
abbrev pub str_eq : String → String → Bool
str_eq s t = text_eq s t

pub str_eq_refl : (s : String) → str_eq s s ≡ true
str_eq_refl s = eq_refl s

-- an f-string: its parts in order
unfoldable pub fmt : List String → String
fmt [] = ""
fmt (s ∷ ss) = s ++ fmt ss

-- `bool(s)`
abbrev pub is_nonempty : String → Bool
is_nonempty String.[] = false
is_nonempty (String.◌∷◌ c s) = true

-- `s[:n]`, by characters
unfoldable pub str_take : ℕ → String → String
str_take zero s = ""
str_take (suc n) String.[] = ""
str_take (suc n) (String.◌∷◌ c s) = String.◌∷◌ c (str_take n s)

-- `len(s)`, in characters
unfoldable pub str_length : String → ℕ
str_length String.[] = 0
str_length (String.◌∷◌ c s) = suc (str_length s)

-- the character at the place in `to` where `from` has `c`
translate : String → String → Char → Char
translate String.[] to c = c
translate (String.◌∷◌ a from) String.[] c = c
translate (String.◌∷◌ a from) (String.◌∷◌ b to) c =
    if code a == code c then b else translate from to c

-- `s.replace("-", "_")`
unfoldable pub underscored : String → String
unfolding translate
underscored String.[] = ""
underscored (String.◌∷◌ c s) = String.◌∷◌ (translate "-" "_" c) (underscored s)

-- `s.lower()`
unfoldable pub lower : String → String
unfolding translate
lower String.[] = ""
lower (String.◌∷◌ c s) =
    String.◌∷◌ (translate "ABCDEFGHIJKLMNOPQRSTUVWXYZ" "abcdefghijklmnopqrstuvwxyz" c) (lower s)

-- what `strip` removes, of ASCII: tab to carriage return, the four separators, and space
unfoldable pub is_space : ℕ → Bool
is_space c = (leb 9 c && leb c 13) || (leb 28 c && leb c 32)

unfoldable pub lstrip : String → String
unfolding is_space
lstrip String.[] = ""
lstrip (String.◌∷◌ c s) = let rest = lstrip s in if is_space (code c) then rest else String.◌∷◌ c s

-- keeps a character that is no space, or that stands before one
unfoldable pub rstrip : String → String
unfolding is_space
rstrip String.[] = ""
rstrip (String.◌∷◌ c s) =
    let rest = rstrip s in
    if is_nonempty rest
    then String.◌∷◌ c rest
    else if is_space (code c)
    then ""
    else String.◌∷◌ c ""

-- `s.strip()`
unfoldable pub strip : String → String
unfolding lstrip rstrip
strip s = rstrip (lstrip s)

-- `part in s`
unfoldable pub contains : String → String → Bool
contains String.[] part = starts_with "" part
contains (String.◌∷◌ c s) part = starts_with (String.◌∷◌ c s) part || contains s part

-- `s < t`, by code points
unfoldable pub str_lt : String → String → Bool
str_lt s String.[] = false
str_lt String.[] (String.◌∷◌ d t) = true
str_lt (String.◌∷◌ c s) (String.◌∷◌ d t) = ltb (code c) (code d) || (code c == code d && str_lt s t)

digit_at : String → ℕ → String
digit_at String.[] i = ""
digit_at (String.◌∷◌ c s) zero = String.◌∷◌ c ""
digit_at (String.◌∷◌ c s) (suc i) = digit_at s i

digits_of : ℕ → ℕ → String
unfolding digit_at
digits_of zero n = ""
digits_of (suc fuel) n =
    let before = digits_of fuel (n / 10) in
    if ltb n 10 then digit_at "0123456789" n else before ++ digit_at "0123456789" (n % 10)

-- `str(n)`; a number has at most n + 1 digits
unfoldable pub str : ℕ → String
unfolding digits_of
str n = digits_of (suc n) n

digits_value : ℕ → String → Option ℕ
digits_value acc String.[] = some acc
digits_value acc (String.◌∷◌ c s) =
    if leb 48 (code c) && leb (code c) 57 then digits_value (acc * 10 + (code c - 48)) s else none

-- `int(s)` on an unsigned decimal numeral; none for the ValueError
unfoldable pub int_of : String → Option ℕ
unfolding digits_value
int_of s = if is_nonempty s then digits_value 0 s else none

-- `s.capitalize()`: one character in upper case, the others in lower case
unfoldable pub capitalize : String → String
unfolding translate lower
capitalize String.[] = ""
capitalize (String.◌∷◌ c s) =
    String.◌∷◌ (translate "abcdefghijklmnopqrstuvwxyz" "ABCDEFGHIJKLMNOPQRSTUVWXYZ" c) (lower s)

-- `mid.join(ss)`
unfoldable pub join : String → List String → String
join mid [] = ""
join mid (s ∷ []) = s
join mid (s ∷ t ∷ ss) = s ++ (mid ++ join mid (t ∷ ss))

-- `s.isdigit()`
unfoldable pub is_digits : String → Bool
unfolding int_of
is_digits s = elim (int_of s) [ some n ↦ true | none ↦ false ]
