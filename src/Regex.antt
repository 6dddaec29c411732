-- ===== src/Regex.antt =====
-- The part of Python's `re` that the SQL rule uses, over code points: ASCII classes, and letters
-- compared without case. A match is searched for through every set of ends that a pattern can reach.
pub mod Fuel
use real_time_distributed_si.Prelude.{
  ℕ, zero, suc, ◌+◌, String, Bool, true, false, Option, none, some, List, [], ◌∷◌, ◌++◌, ◌&&◌, ◌||◌,
  not, if◌then◌else◌, leb, ◌==◌, length, is_space,
}
use Prim.Native.Char.{code}

pub data Re : Type 0 where
  one : (ℕ → Bool) → Re
  seq : Re → Re → Re
  alt : Re → Re → Re
  star : Re → Re
  -- `\b`, `$` and `(?!r)`
  boundary : Re
  at_end : Re
  not_ahead : Re → Re

-- the character before the position, and the text after it
pub record Position : Type 0 where
  pub before : Option ℕ
  pub after : List ℕ

unfoldable pub is_digit : ℕ → Bool
is_digit c = leb b'0' c && leb c b'9'

-- `\w`
unfoldable pub is_word : ℕ → Bool
unfolding is_digit
is_word c = (leb b'a' c && leb c b'z') || ((leb b'A' c && leb c b'Z') || (is_digit c || c == b'_'))

abbrev small : ℕ → ℕ
small c = if leb b'A' c && leb c b'Z' then c + 32 else c

abbrev word_before : Option ℕ → Bool
word_before none = false
word_before (some c) = is_word c

abbrev word_after : List ℕ → Bool
word_after [] = false
word_after (c ∷ cs) = is_word c

abbrev ends_line : List ℕ → Bool
ends_line [] = true
ends_line (c ∷ []) = c == 10
ends_line (c ∷ d ∷ cs) = false

abbrev is_empty : List Position → Bool
is_empty [] = true
is_empty (p ∷ ps) = false

abbrev same : Bool → Bool → Bool
same true b = b
same false b = not b

unfoldable pub bind_all : (Position → List Position) → List Position → List Position
bind_all f [] = []
bind_all f (p ∷ ps) = f p ++ bind_all f ps

-- zero or more steps; a step that reads nothing ends the repetition
unfoldable pub repeat_ends : ℕ → (Position → List Position) → Position → List Position
repeat_ends zero step p = p ∷ []
repeat_ends (suc fuel) step p = p ∷ bind_all (repeat_ends fuel step) (step p)

unfoldable pub step_one : (ℕ → Bool) → Option ℕ → List ℕ → List Position
step_one test before [] = []
step_one test before (c ∷ cs) = if test c then record { before = some c; after = cs } ∷ [] else []

-- the positions at which a match that starts at `p` can end
unfoldable pub ends : Re → Position → List Position
unfolding bind_all repeat_ends step_one is_word
ends (one test) p = step_one test p.before p.after
ends (seq a b) p = bind_all (ends b) (ends a p)
ends (alt a b) p = ends a p ++ ends b p
ends (star a) p = repeat_ends (length p.after) (ends a) p
ends boundary p = if same (word_before p.before) (word_after p.after) then [] else p ∷ []
ends at_end p = if ends_line p.after then p ∷ [] else []
ends (not_ahead a) p = if is_empty (ends a p) then p ∷ [] else []

search_from : Re → Option ℕ → List ℕ → Bool
search_from r before [] = not (is_empty (ends r (record { before = before; after = [] })))
search_from r before (c ∷ cs) =
    not (is_empty (ends r (record { before = before; after = c ∷ cs })))
    || search_from r (some c) cs

codes : String → List ℕ
codes String.[] = []
codes (String.◌∷◌ c s) = code c ∷ codes s

-- `rx.search(text) is not None`
unfoldable pub search_in : Re → String → Bool
unfolding search_from codes ends
search_in r s = search_from r none (codes s)

-- a literal word, whatever the case; the pattern is in small letters
word_codes : List ℕ → Re
word_codes [] = star (one (λ c. false))
word_codes (c ∷ []) = one (λ d. small d == c)
word_codes (c ∷ c' ∷ cs) = seq (one (λ d. small d == c)) (word_codes (c' ∷ cs))

unfoldable pub word : String → Re
unfolding word_codes codes
word s = word_codes (codes s)

abbrev pub space : Re
space = one is_space

abbrev pub some_of : Re → Re
some_of r = seq r (star r)

abbrev pub one_of : ℕ → List ℕ → Bool
one_of c [] = false
one_of c (d ∷ ds) = c == d || one_of c ds
