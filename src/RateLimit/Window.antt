-- ===== src/RateLimit/Window.antt =====
-- backend/app/core/security.py: how many requests of a client pass in a minute.
use real_time_distributed_si.Prelude.{
  ℕ, ◌+◌, String, Bool, List, [], ◌∷◌, ◌&&◌, if◌then◌else◌, str_eq,
}
use real_time_distributed_si.RateLimit.{Request, no_blip, Counts, is_api, request_key, dispatch}

-- the request counts for that client and minute
abbrev pub counts_for : String → Request → Bool
counts_for k q = is_api q && str_eq (request_key q) k

-- how many requests of that client and minute a run of requests passes on
unfoldable pub passes : ℕ → String → List Request → Counts → ℕ
unfolding dispatch
passes limit k [] counts = 0
passes limit k (q ∷ qs) counts =
    let (passed, counts') = dispatch limit no_blip q counts in
    let rest = passes limit k qs counts' in if counts_for k q && passed then rest + 1 else rest
