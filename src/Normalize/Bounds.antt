-- ===== src/Normalize/Bounds.antt =====
-- backend/app/schemas/event.py: the bounds that every accepted event meets.
use real_time_distributed_si.Prelude.{
  ℕ, ◌^◌, leb, zero, suc, ◌+◌, ◌≤◌, ◌<◌, ℤ, pos, negsuc, String, ◌≡◌, refl, Option, none, some,
  arith, str_take, str_length, strip, is_nonempty, Bool-cases, inl, inr,
}
use mathlib.Core.Bool.{true, false}
use mathlib.Core.Path.{subst}
use real_time_distributed_si.Value.Convert.{int_value}
use real_time_distributed_si.Floats.{Floats}
use real_time_distributed_si.Value.{Value, Fields, end, field, put, size, null, bool}
use real_time_distributed_si.Event.{SecurityEvent}
use real_time_distributed_si.Detection.{Outcome, ok, raised}
use real_time_distributed_si.Normalize.{
  Platform, Draw, from_raw, event_at, normalize_ts, built, clip, clip_value, clip_source, max_str,
  max_msg, one_day, clamp_skew, clamp_bytes, port_in_range, validate_port, validate_bytes,
  bound_metadata, bounded_into, or_else, is_blank, value_at, checked, port_of, bytes_of,
  merged_metadata,
}

-- a text that may be missing is within a limit
abbrev pub Within : ℕ → Option String → Type 0
Within n none = Unit
Within n (some s) = str_length s ≤ n

abbrev pub PortInRange : Option ℕ → Type 0
PortInRange none = Unit
PortInRange (some n) = n ≤ 65535

pub record IsBounded {R : Type 0} (e : SecurityEvent R) (now : ℕ) : Type 0 where
  pub instant : e.timestamp ≤ now + one_day
  pub port : PortInRange e.destination_port
  pub bytes_out : e.bytes_out < 2 ^ 63
  pub bytes_in : e.bytes_in < 2 ^ 63
  pub source : str_length e.source ≤ max_str
  pub username : Within max_str e.username
  pub service : Within max_str e.service
  pub action : Within max_str e.action
  pub message : Within max_msg e.message
  pub metadata : size e.metadata ≤ 50

str_length-take-le : (n : ℕ) (s : String) → str_length (str_take n s) ≤ n
unfolding str_length str_take
str_length-take-le zero s = omega arith
str_length-take-le (suc n) String.[] = omega arith
str_length-take-le (suc n) (String.◌∷◌ c s) = omega (arith, str_length-take-le n s)

clip-Within : (s : String) (n : ℕ) → Within n (clip s n)
unfolding clip
clip-Within s n = elim (Bool-cases (is_nonempty (strip s))) [
  | inl more ↦ rw more (str_length-take-le n (strip s))
  | inr blank ↦ rw blank tt
]

clamp_bytes-lt : (n : ℤ) → clamp_bytes n < 2 ^ 63
unfolding clamp_bytes
clamp_bytes-lt (pos n) = ground arith
clamp_bytes-lt (negsuc n) = omega arith

port_in_range-le : (n : ℤ) → PortInRange (port_in_range n)
unfolding port_in_range
port_in_range-le (negsuc n) = tt
port_in_range-le (pos n) = elim (Bool-cases (leb n 65535)) [
  | inl low ↦ rw low (ground arith)
  | inr high ↦ rw high tt
]

ok-injective : {A : Type 0} {a b : A} → ok a ≡ ok b → a ≡ b
ok-injective h = ground arith

module _ {R : Type 0} where
  size-put-le : (k : String) (v : Value R) (d : Fields R) → size (put k v d) ≤ size d + 1
  unfolding size put
  size-put-le k v end = omega arith
  size-put-le k v (field j w d) = ground (arith, size-put-le k v d)

  size-bounded_into : (n : ℕ) (out d : Fields R) → size (bounded_into n out d) ≤ size out + n
  unfolding bounded_into
  size-bounded_into zero out d = omega arith
  size-bounded_into (suc n) out end = omega arith
  size-bounded_into (suc n) out (field k v d) = omega (
    arith,
    size-bounded_into n (put (str_take 128 k) v out) d,
    size-put-le (str_take 128 k) v out,
  )

module _ {R : Type 0} ⦃F : Floats R⦄ (pf : Platform R) where
  clip_value-Within : (n : ℕ) (v : Value R) → Within n (clip_value pf n v)
  unfolding clip_value
  clip_value-Within n null = tt
  clip_value-Within n _ = clip-Within _ n

  source-le : (o : Option String) → Within max_str o → str_length (or_else o "unknown") ≤ max_str
  unfolding str_length
  source-le none h = omega arith
  source-le (some s) h = h

  port-le : (o : Option ℤ) → PortInRange (port_of pf o)
  port-le none = tt
  port-le (some n) = port_in_range-le n

  validate_port-le : (v : Value R) → PortInRange (validate_port pf v)
  unfolding validate_port
  validate_port-le v = elim (Bool-cases (is_blank v)) [
    | inl blank ↦ rw blank tt
    | inr other ↦ rw other (port-le (int_value v))
  ]

  bytes-lt : (o : Option ℤ) → bytes_of pf o < 2 ^ 63
  bytes-lt none = omega arith
  bytes-lt (some n) = clamp_bytes-lt n

  validate_bytes-lt : (v : Value R) → validate_bytes pf v < 2 ^ 63
  unfolding validate_bytes
  validate_bytes-lt v = bytes-lt (int_value v)

  checked-le : (now t : ℕ) (o : Option ℕ) → checked pf now o ≡ ok t → t ≤ now + one_day
  unfolding clamp_skew
  checked-le now t none h = absurd (ground arith)
  checked-le now t (some u) h = ground arith

  normalize_ts-le : (now t : ℕ) (v : Value R) → normalize_ts pf now v ≡ ok t → t ≤ now + one_day
  unfolding normalize_ts
  normalize_ts-le now t null h = ground arith
  normalize_ts-le now t (bool true) h = checked-le now t _ h
  normalize_ts-le now t (bool false) h = checked-le now t _ h
  normalize_ts-le now t _ h = checked-le now t _ h

  event_at-IsBounded :
      (draw : Draw) (d : Fields R) (t : ℕ)
      → t ≤ draw.now + one_day
      → IsBounded (event_at pf draw d t) draw.now
  unfolding event_at clip_source bound_metadata size
  event_at-IsBounded draw d t h = record {
    instant = h;
    port = validate_port-le _;
    bytes_out = validate_bytes-lt _;
    bytes_in = validate_bytes-lt _;
    source = source-le _ (clip_value-Within max_str (value_at "source" d));
    username = clip_value-Within max_str _;
    service = clip_value-Within max_str _;
    action = clip_value-Within max_str _;
    message = clip_value-Within max_msg _;
    metadata = omega (arith, size-bounded_into 50 end (merged_metadata d));
  }

  built-IsBounded :
      (draw : Draw) (d : Fields R) (e : SecurityEvent R) (o : Outcome ℕ)
      → ((t : ℕ) → o ≡ ok t → t ≤ draw.now + one_day)
      → built pf draw d o ≡ ok e
      → IsBounded e draw.now
  built-IsBounded draw d e (raised m) h eq = absurd (ground arith)
  built-IsBounded draw d e (ok t) h eq =
      subst (λ x. IsBounded x draw.now) (ok-injective eq) (event_at-IsBounded draw d t (h t refl))

  -- Every event that `from_raw` accepts is bounded, whatever the payload: its instant is at most a day
  -- past the clock, its port at most 65535, its byte counts below 2 to the 63rd, its source, username,
  -- service and action at most 512 and its message at most 2048 characters long, and its metadata hold
  -- at most 50 entries.
  pub from_raw-IsBounded :
      (draw : Draw) (d : Fields R) (e : SecurityEvent R)
      → from_raw pf draw d ≡ ok e
      → IsBounded e draw.now
  unfolding from_raw
  from_raw-IsBounded draw d e h =
      built-IsBounded draw d e _ (λ t. normalize_ts-le draw.now t (value_at "timestamp" d)) h
