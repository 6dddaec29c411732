-- ===== src/Tests/Vitals.antt =====
-- The theorem on the dashboard at a live worker and at a text that is no time.
use real_time_distributed_si.Prelude.{ℕ, ◌*◌, ◌≡◌, refl, true, none, some, [], ◌∷◌, int_of, pos}
use real_time_distributed_si.Detection.{raised}
use real_time_distributed_si.Vitals.{
  Reading, whole, Stored, hget, rv, worker_fresh, dashboard_metrics,
}
use real_time_distributed_si.Vitals.Fresh.{IsAnswer, dashboard_metrics_lem}
use real_time_distributed_si.Tests.Fixtures.{thousandths, failed_login, first_alert}
use real_time_distributed_si.Tests.Sorting.{table}

abbrev reading : Reading ℕ
reading = record {
  float_of = λ s. elim (int_of s) [ none ↦ none | some n ↦ some (n * 1000) ];
  is_integer = λ x. true;
}

abbrev live : Stored
live = record {
  rolling = ("events_per_second", "12") ∷ ("updated_at", "80") ∷ [];
  last_minute = ("minute", "1") ∷ ("events", "40") ∷ [];
  worker_seen = some "90";
  lag_raw = [];
}

shown_rate : rv reading true live.rolling "events_per_second" ≡ some (whole (pos 12))
unfolding rv hget int_of
shown_rate = refl

broken_heartbeat : worker_fresh reading 100000 (some "x") ≡ raised "ValueError"
unfolding worker_fresh int_of
broken_heartbeat = refl

dashboard_metrics_lem_example : IsAnswer reading 100000 100000 live (first_alert ∷ []) (
    dashboard_metrics reading 90000000 100000 100000 live
      (failed_login "e1" 40 ∷ [])
      (first_alert ∷ []))
dashboard_metrics_lem_example =
    dashboard_metrics_lem reading 90000000 100000 100000 live (failed_login "e1" 40 ∷ [])
      (first_alert ∷ [])
