-- ===== src/Tests/Tokens.antt =====
-- Numerals as tokens: the members of a window that they make are apart.
use Prim.Native.Char.{code}
use Prim.Native.String.{String, ◌++◌}
use text.Mathlib.TextLemmas.{nil-append, cons-append, append-nil}
use real_time_distributed_si.Prelude.{
  ℕ, str, ◌≡◌, refl, sym, ap, ◌∙◌, true, false, ◌<◌, arith, fmt, ◌==◌, if◌then◌else◌, str_eq,
  eq_iff, Bool-cases, inl, inr,
}
use real_time_distributed_si.Window.{encode, sep}
use real_time_distributed_si.Window.Codec.{has_sep, has_sep-str}
use real_time_distributed_si.Tests.Fixtures.{str_apart}

-- what stands behind the last separator
unfoldable last_part : String → String
last_part String.[] = ""
last_part (String.◌∷◌ c s) =
    let rest = last_part s in
    if has_sep s then rest else if code c == 0x1f then s else String.◌∷◌ c s

has_sep-append : (u t : String) → has_sep (u ++ (sep ++ t)) ≡ true
unfolding has_sep
has_sep-append String.[] t = rw (nil-append, cons-append) refl
has_sep-append (String.◌∷◌ c u) t = rw cons-append (ground (arith, has_sep-append u t))

last_part-append : (u t : String) → has_sep t ≡ false → last_part (u ++ (sep ++ t)) ≡ t
unfolding last_part
last_part-append String.[] t h = rw (nil-append, cons-append, nil-append, h) refl
last_part-append (String.◌∷◌ c u) t h =
    rw (cons-append, has_sep-append u t) (last_part-append u t h)

last_part-encode : (u : String) (n : ℕ) → last_part (encode u (str n)) ≡ str n
unfolding encode fmt
last_part-encode u n = rw append-nil (last_part-append u (str n) (has_sep-str n))

pub members_apart :
    (i j : ℕ) (u v : String) → i < j → str_eq (encode u (str i)) (encode v (str j)) ≡ false
members_apart i j u v h = elim (Bool-cases (str_eq (encode u (str i)) (encode v (str j)))) [
  | inl same ↦
      let e = (eq_iff (encode u (str i)) (encode v (str j))).0 same in
      absurd (
        ground (
          arith,
          str_apart i j h,
          eq_iff (str i) (str j),
          sym (last_part-encode u i) ∙ ap last_part e ∙ last_part-encode v j,
        ))
  | inr other ↦ other
]
