-- ===== src/Tests/Services.antt =====
-- The theorems on the services around the engine at concrete inputs.
use real_time_distributed_si.Simulator.Rate.{emit_tick-Emits, Emits}
use real_time_distributed_si.Simulator.{Generator, emit_tick}
use real_time_distributed_si.Prelude.{ℕ, refl, String, some, List, [], ◌∷◌, filter, true, any}
use real_time_distributed_si.Alert.{open_by_key, get_open_by_key, insert_row}
use real_time_distributed_si.Correlation.{Applied, apply, create}
use real_time_distributed_si.Correlation.Fold.{IsBounded, apply-IsBounded}
use real_time_distributed_si.RateLimit.{Request}
use real_time_distributed_si.Tests.Fixtures.{session, thousandths, found}

abbrev created_alert : Applied ℕ
created_alert = record {
  alert = create "a1" 40 found;
  created = true;
  rows = create "a1" 40 found ∷ [];
}

apply-IsBounded_example : IsBounded created_alert.alert
unfolding apply get_open_by_key open_by_key insert_row filter any
apply-IsBounded_example = apply-IsBounded "a1" 50 found [] created_alert refl

abbrev request : ℕ → Request
request second = record { path = "/api/events"; client = some "203.0.113.9"; second = second }

abbrev requests : List Request
requests = request 61 ∷ request 62 ∷ request 125 ∷ request 63 ∷ []

abbrev minute_key : String
minute_key = "siem:ratelimit:203.0.113.9:1"

abbrev generator : Generator ℕ
generator = record {
  queue = 100 ∷ 101 ∷ [];
  sent_total = 0;
  sent_attack = 0;
  scenario_runs = 1;
  sent = [];
}

emit_tick-Emits_example :
    Emits (λ i. i) 0 5 (100 ∷ 101 ∷ []) generator (emit_tick (λ i. i) (λ i. true) 0 5 generator)
emit_tick-Emits_example = emit_tick-Emits (λ i. i) (λ i. true) 0 5 generator (λ j. refl)
