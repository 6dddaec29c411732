-- ===== src/RateLimit.antt =====
-- backend/app/core/security.py: `RateLimitMiddleware`, the fixed-window limiter. What Redis holds is
-- the list of its counters. A counter expires after 90 seconds, when its minute is over, and is never
-- asked for again, so the expiry is left out. The clock of a request is in seconds.
pub mod Window
use real_time_distributed_si.Prelude.{
  ℕ, ◌+◌, ◌/◌, String, Bool, true, false, Option, none, some, List, [], ◌∷◌, ◌&&◌, if◌then◌else◌,
  ltb, ◌==◌, str_eq, fmt, str,
}
use text.Mathlib.Text.{starts_with}

pub record Request : Type 0 where
  pub path : String
  pub client : Option String
  pub second : ℕ

-- where Redis fails
pub data Blip : Type 0 where
  no_blip at_incr at_expire : Blip

abbrev pub Counts : Type 0
Counts = List (String × ℕ)

-- `limit_per_minute or settings.rate_limit_per_minute`
unfoldable pub limit_of : Option ℕ → ℕ → ℕ
limit_of none default = default
limit_of (some n) default = if n == 0 then default else n

unfoldable pub is_api : Request → Bool
is_api q = starts_with q.path "/api/"

abbrev client_ip : Option String → String
client_ip none = "unknown"
client_ip (some host) = host

-- the counter of the client's minute
unfoldable pub request_key : Request → String
request_key q = fmt ("siem:ratelimit:" ∷ client_ip q.client ∷ ":" ∷ str (q.second / 60) ∷ [])

unfoldable pub count_of : String → Counts → ℕ
count_of k [] = 0
count_of k ((j, n) ∷ counts) = if str_eq j k then n else count_of k counts

-- INCR
unfoldable pub incr : String → Counts → ℕ × Counts
unfolding count_of
incr k counts = (count_of k counts + 1, (k, count_of k counts + 1) ∷ counts)

-- whether the request is passed on, once its counter has the new value
abbrev pub admitted : ℕ → Blip → ℕ → Bool
admitted limit at_expire current =
    if current == 1 then true else if ltb limit current then false else true
admitted limit blip current = if ltb limit current then false else true

-- the limited part of `dispatch`; a failure of Redis lets the request pass
unfoldable pub limited : ℕ → Blip → String → Counts → Bool × Counts
unfolding incr
limited limit at_incr k counts = (true, counts)
limited limit blip k counts =
    let (current, counts') = incr k counts in (admitted limit blip current, counts')

-- `dispatch`: whether the request is passed on, or answered by 429
unfoldable pub dispatch : ℕ → Blip → Request → Counts → Bool × Counts
unfolding limited
dispatch limit blip q counts =
    if is_api q then limited limit blip (request_key q) counts else (true, counts)
