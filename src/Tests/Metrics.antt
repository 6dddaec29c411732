-- ===== src/Tests/Metrics.antt =====
-- The theorems on the metrics feed, the anomaly detector and the ML layer at concrete inputs.
use real_time_distributed_si.Prelude.{
  ℕ, ◌+◌, ◌<◌, ◌≡◌, refl, String, none, some, List, [], ◌∷◌, arith, true, false, ◌&&◌, length,
  filter, str_eq, str, take, drop,
}
use real_time_distributed_si.Floats.{flt}
use real_time_distributed_si.Enums.{Severity, severity_value, investigating, is_active}
use real_time_distributed_si.Alert.{Alert, same_status}
use real_time_distributed_si.Pipeline.{Pipeline, no_fault}
use real_time_distributed_si.Anomaly.{AnomalyResult, Baselines, baseline_of, observe}
use real_time_distributed_si.Anomaly.WarmUp.{samples_of, observe_lem}
use real_time_distributed_si.Metrics.{Feed, fresh_minute, no_counters}
use real_time_distributed_si.Metrics.Update.{Ticks, update_metrics}
use real_time_distributed_si.Metrics.Minutes.{Feeds, update_metrics-Feeds}
use real_time_distributed_si.Metrics.Alerts.{Keeps, update_metrics-Keeps}
use real_time_distributed_si.Metrics.Gauge.{
  Gauges, count_at, refresh_active_alert_gauge, active_gauge_lem, of_severity,
}
use real_time_distributed_si.Tests.Sorting.{table}
use real_time_distributed_si.Ml
use real_time_distributed_si.Ml.{Ml, Forest, pushed, vectorize}
use real_time_distributed_si.Ml.Buffer.{full_retrains}
use real_time_distributed_si.Event.{SecurityEvent}
use real_time_distributed_si.Tests.Fixtures.{
  Memory, empty_memory, thousandths, session, settings, failed_login, no_alerts, numbered,
  first_alert,
}

abbrev watched : Baselines ℕ
watched =
    ("auth_failures_per_min", record { mean = 2000; var = 1000; n = 20 })
    ∷ ("events_per_min", record { mean = 9000; var = 500; n = 3 })
    ∷ []

observe_lem_example :
    (samples_of "auth_failures_per_min" watched < 20
      → (observe settings "auth_failures_per_min" 9000 watched).0 ≡ none)
    × (samples_of "auth_failures_per_min" (observe settings "auth_failures_per_min" 9000 watched).1
        ≡ samples_of "auth_failures_per_min" watched + 1)
    × ((other : String)
        → str_eq "auth_failures_per_min" other ≡ false
        → baseline_of other (observe settings "auth_failures_per_min" 9000 watched).1
          ≡ baseline_of other watched)
    × ((found : AnomalyResult ℕ)
        → (observe settings "auth_failures_per_min" 9000 watched).0 ≡ some found
        → flt 1000 found.anomaly_score ≡ false)
observe_lem_example = observe_lem settings "auth_failures_per_min" 9000 watched

abbrev batch : List (SecurityEvent ℕ)
batch = failed_login "e1" 61 ∷ failed_login "e2" 62 ∷ []

abbrev feed : Feed ℕ
feed = record {
  minute = fresh_minute 0;
  baselines = watched;
  batch_secs = 5;
  detect_secs = 3;
  history = [];
  last_minute = [];
}

abbrev pipeline : Pipeline ℕ Memory
pipeline = record {
  redis = empty_memory;
  events = [];
  alerts = [];
  disabled = [];
  w = no_counters;
  published = [];
}

-- a round in the next minute
abbrev ticks : Ticks ℕ
ticks = record {
  now = 61000000;
  now_minute = 60000000;
  minute_text = "00:00";
  elapsed = 6000;
  ml = λ feats. none;
  alert_ids = str;
  faults = λ i. no_fault;
}

update_metrics-Feeds_example :
    Feeds ticks batch feed pipeline (update_metrics settings ticks batch (feed, pipeline))
update_metrics-Feeds_example = update_metrics-Feeds settings ticks batch feed pipeline

update_metrics-Keeps_example :
    Keeps
      (λ i. no_fault)
      (update_metrics settings ticks batch (feed, pipeline)).0
      (update_metrics settings ticks batch (feed, pipeline)).2.alerts
update_metrics-Keeps_example =
    update_metrics-Keeps settings ticks batch feed pipeline no_alerts numbered

abbrev two_rows : List (Alert ℕ)
two_rows = first_alert ∷ record first_alert { status = investigating } ∷ []

active_gauge_lem_example :
    (g : Gauges) × (refresh_active_alert_gauge two_rows ≡ some g)
    × ((sev : Severity)
        → length (filter (λ a. is_active a.status && of_severity sev a) two_rows)
          ≡ count_at (severity_value sev) g.labels
            + length
                (filter (λ a. same_status a.status investigating && of_severity sev a) two_rows))
active_gauge_lem_example = active_gauge_lem two_rows

-- a forest that is known by the number of vectors it was fitted to
abbrev forest : Forest ℕ ℕ
forest = record { fit = λ vs. some (length vs); decide = λ m v. some (0, false) }

abbrev zeros : ℕ → List (List ℕ)
zeros Prim.Native.Nat.zero = []
zeros (Prim.Native.Nat.suc n) = [] ∷ zeros n

abbrev full : Ml ℕ ℕ
full = record { enabled = true; buffer_size = 60; buffer = zeros 60; model = some 7 }

full_retrains_example : (Ml.observe forest (("events_per_min", 5) ∷ []) full).1.model ≡ some 59
unfolding pushed take drop
full_retrains_example =
    full_retrains forest (("events_per_min", 5) ∷ []) full 59 refl refl refl (omega arith) refl
