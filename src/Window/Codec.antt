-- ===== src/Window/Codec.antt =====
-- backend/app/detection/windows.py: what `_decode` reads from an encoded member.
use Prim.Native.Char.{code}
use Prim.Native.String.{String, ◌++◌}
use text.Mathlib.TextLemmas.{nil-append, cons-append}
use real_time_distributed_si.Prelude.{
  ℕ, str, only_digits, only_digits-str, ◌≡◌, refl, sym, ◌∙◌, Bool, true, false, ◌||◌, arith, fmt,
  ◌==◌,
}
use real_time_distributed_si.Window.{encode, decode, sep}

-- the separator stands in the text
unfoldable pub has_sep : String → Bool
has_sep String.[] = false
has_sep (String.◌∷◌ c s) = code c == 0x1f || has_sep s

has_sep_of_digits : (s : String) → only_digits s ≡ true → has_sep s ≡ false
unfolding has_sep only_digits
has_sep_of_digits String.[] h = refl
has_sep_of_digits (String.◌∷◌ c s) h = ground (arith, has_sep_of_digits s)

pub has_sep-str : (n : ℕ) → has_sep (str n) ≡ false
has_sep-str n = has_sep_of_digits (str n) (only_digits-str n)

decode-append_sep : (s t : String) → has_sep s ≡ false → decode (s ++ (sep ++ t)) ≡ s
unfolding decode has_sep
decode-append_sep String.[] t h = rw (nil-append, cons-append) refl
decode-append_sep (String.◌∷◌ c s) t h = rw cons-append (ground (arith, decode-append_sep s t))

-- The value that a member was encoded from is decoded from it whenever the value does not hold the
-- separator, whatever the token.
pub decode-encode :
    (value token : String) → has_sep value ≡ false → decode (encode value token) ≡ value
unfolding encode fmt
decode-encode value token h = decode-append_sep value (token ++ "") h

decode-append_cut : (s t : String) → decode (s ++ (sep ++ t)) ≡ decode s
unfolding decode
decode-append_cut String.[] t = rw (nil-append, cons-append) refl
decode-append_cut (String.◌∷◌ c s) t = rw cons-append (ground (arith, decode-append_cut s t))

-- A value that holds the separator is cut at it: two values that agree up to a separator are decoded
-- to the same text, whatever follows it and whatever the tokens.
pub decode_truncates :
    (value rest rest' token token' : String)
    → decode (encode (value ++ (sep ++ rest)) token)
      ≡ decode (encode (value ++ (sep ++ rest')) token')
unfolding encode fmt
decode_truncates value rest rest' token token' =
    decode-append_cut (value ++ (sep ++ rest)) (token ++ "")
    ∙ decode-append_cut value rest
    ∙ sym (decode-append_cut value rest')
    ∙ sym (decode-append_cut (value ++ (sep ++ rest')) (token' ++ ""))
