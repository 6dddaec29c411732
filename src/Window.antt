-- ===== src/Window.antt =====
-- backend/app/detection/windows.py: sliding windows over Redis sorted sets. A score is the event's
-- instant; `window_seconds` is in seconds. The random token of a member is an argument.
pub mod Codec
pub mod Contents
pub mod Seen
use Prim.Native.Char.{code}
use real_time_distributed_si.Prelude.{
  ℕ, ◌+◌, ◌-◌, ◌*◌, String, Option, none, some, List, [], ◌∷◌, map, fmt, unique, length,
  if◌then◌else◌, min, max, ◌==◌, str, int_of,
}
use real_time_distributed_si.Redis.{Redis, Entry}
use real_time_distributed_si.Event.{microseconds}

-- `_SEP`, the ASCII unit separator
abbrev pub sep : String
sep = "\u{1f}"

-- `_encode`
unfoldable pub encode : String → String → String
unfolding fmt
encode value token = fmt (value ∷ sep ∷ token ∷ [])

-- `_decode`: what stands before the first separator
unfoldable pub decode : String → String
decode String.[] = ""
decode (String.◌∷◌ c s) = let rest = decode s in if code c == 0x1f then "" else String.◌∷◌ c rest

-- what `add_and_measure` and `measure` report of the entries of a window
pub record WindowResult : Type 0 where
  pub count : ℕ
  pub unique_values : List String
  pub oldest_ts : ℕ
  pub newest_ts : ℕ

-- `span_seconds`, in microseconds; the subtraction stops at 0 as `max(0.0, …)` does
unfoldable pub span : WindowResult → ℕ
span r = r.newest_ts - r.oldest_ts

-- `min` and `max` of the scores x and xs
unfoldable pub minimum : ℕ → List Entry → ℕ
minimum x [] = x
minimum x ((m, t) ∷ es) = minimum (min x t) es

unfoldable pub maximum : ℕ → List Entry → ℕ
maximum x [] = x
maximum x ((m, t) ∷ es) = maximum (max x t) es

-- `{_decode(m) for m, _ in entries}`
unfoldable pub decoded : List Entry → List String
decoded es = map (λ e. decode e.0) es

-- `_to_result`
unfoldable pub to_result : List Entry → ℕ → WindowResult
unfolding minimum maximum decoded
to_result [] now = record { count = 0; unique_values = []; oldest_ts = now; newest_ts = now }
to_result ((m, t) ∷ es) now = record {
  count = length ((m, t) ∷ es);
  unique_values = unique (decoded ((m, t) ∷ es));
  oldest_ts = minimum t es;
  newest_ts = maximum t es;
}

-- `_key` under the namespace `siem:win`
unfoldable pub key : String → String → String
unfolding fmt
key name entity = fmt ("siem:win" ∷ ":" ∷ name ∷ ":" ∷ entity ∷ [])

-- what a member adds to the sum; one that is no number is passed over
abbrev pub counted : Option ℕ → ℕ
counted (some n) = n
counted none = 0

-- the loop of `incr_sum`
unfoldable pub total : List Entry → ℕ
total [] = 0
total ((m, t) ∷ es) = counted (int_of (decode m)) + total es

module _ {S : Type 0} ⦃rd : Redis S⦄ where
  -- the commands that both writers send before they read: trim, add, renew the time to live
  unfoldable pub record_value : String → String → ℕ → ℕ → S → S
  record_value k member window_seconds now s =
      rd.expire k (window_seconds + 30)
        (rd.zadd k member now (rd.zremrangebyscore k now (window_seconds * microseconds) s))

  unfoldable pub add_and_measure :
      (name entity value token : String) (window_seconds now : ℕ) → S → WindowResult × S
  unfolding record_value
  add_and_measure name entity value token window_seconds now s =
      let k = key name entity in
      let s' = record_value k (encode value token) window_seconds now s in
      (to_result (rd.zrange k s') now, s')

  -- `now` is the wall clock here, not the instant of an event
  unfoldable pub measure : (name entity : String) (window_seconds now : ℕ) → S → WindowResult × S
  measure name entity window_seconds now s =
      let k = key name entity in
      let s' = rd.zremrangebyscore k now (window_seconds * microseconds) s in
      (to_result (rd.zrange k s') now, s')

  unfoldable pub incr_sum :
      (name entity : String) (amount : ℕ) (token : String) (window_seconds now : ℕ) → S → ℕ × S
  unfolding record_value
  incr_sum name entity amount token window_seconds now s =
      let k = key name entity in
      let s' = record_value k (encode (str amount) token) window_seconds now s in
      (total (rd.zrange k s'), s')
