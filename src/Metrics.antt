-- ===== src/Metrics.antt =====
-- backend/app/streaming/pipeline.py: the counters of a minute and of the rolling measurement window.
pub mod Flush
pub mod Update
pub mod Minutes
pub mod Alerts
pub mod Gauge
use real_time_distributed_si.Prelude.{
  ℕ, suc, ◌+◌, String, Bool, true, false, map, Option, none, some, List, [], ◌∷◌, ◌++◌, ◌||◌, ◌&&◌,
  not, if◌then◌else◌, take, length, ltb, ◌==◌, max, mem, str_eq, fmt, filter,
}
use real_time_distributed_si.Floats.{
  Floats, fadd, fsub, fmul, fdiv, flt, dec, of_ℕ, round, fmin, fmax,
}
use real_time_distributed_si.Settings.{Settings}
use real_time_distributed_si.Enums.{
  Severity, DetectionKind, event_type_value, medium, high, opened, acknowledged, severity_value,
}
use real_time_distributed_si.Value.{Value, Fields, end, field, text, float, dict}
use real_time_distributed_si.Event.{SecurityEvent}
use real_time_distributed_si.Detection.{Detection, Outcome, ok, raised, truthy}
use real_time_distributed_si.Alert.{Alert, Session, same_status}
use real_time_distributed_si.Correlation
use real_time_distributed_si.Correlation.{Applied}
use real_time_distributed_si.Anomaly.{AnomalyResult, Baselines, observe}
use real_time_distributed_si.Pipeline.{
  Pipeline, Counters, Message, alert_message, Fault, is_fault, on_commit,
}

-- the counters of a minute with its source addresses
pub record Minute : Type 0 where
  pub bucket : ℕ
  pub events : ℕ
  pub auth_failures : ℕ
  pub db_errors : ℕ
  pub firewall_denies : ℕ
  pub bytes_out : ℕ
  pub ips : List String

abbrev pub fresh_minute : ℕ → Minute
fresh_minute bucket = record {
  bucket = bucket;
  events = 0;
  auth_failures = 0;
  db_errors = 0;
  firewall_denies = 0;
  bytes_out = 0;
  ips = [];
}

-- `add` to the set of addresses
abbrev add_ip : Option String → List String → List String
add_ip none ips = ips
add_ip (some ip) ips = if mem ip ips then ips else ip ∷ ips

module _ {R : Type 0} where
  abbrev pub has_type : String → SecurityEvent R → Bool
  has_type name e = str_eq (event_type_value e.event_type) name

  -- one event of the loop
  unfoldable pub count_event : SecurityEvent R → Minute → Minute
  count_event e m = record m {
    events = m.events + 1;
    auth_failures =
        if has_type "authentication_failure" e then m.auth_failures + 1 else m.auth_failures;
    db_errors = if has_type "db_error" e then m.db_errors + 1 else m.db_errors;
    firewall_denies =
        if has_type "firewall_deny" e then m.firewall_denies + 1 else m.firewall_denies;
    bytes_out = m.bytes_out + e.bytes_out;
    ips = if truthy e.source_ip then add_ip e.source_ip m.ips else m.ips;
  }

  unfoldable pub count_events : List (SecurityEvent R) → Minute → Minute
  unfolding count_event
  count_events [] m = m
  count_events (e ∷ events) m = count_events events (count_event e m)

-- the values of a rolling window, as they are published
pub record Payload (R : Type 0) : Type 0 where
  pub events_per_second : R
  pub events_processed_per_second : R
  pub pipeline_latency_ms : R
  pub detection_latency_ms : R
  pub alerts_per_minute : R
  pub invalid_events_window : ℕ
  pub duplicate_events_window : ℕ
  pub batches_window : ℕ
  pub pipeline_health_pct : R
  pub window_seconds : R
  pub updated_at : ℕ

-- the state beside that of `process_batch`
pub record Feed (R : Type 0) : Type 0 where
  pub minute : Minute
  pub baselines : Baselines R
  pub batch_secs : R
  pub detect_secs : R
  -- the history that is kept for the dashboard, the newest first
  pub history : List (Payload R)
  -- `siem:metrics:last_minute`
  pub last_minute : List (String × R)

-- what the ML model says of a minute
pub record MlResult (R : Type 0) : Type 0 where
  pub score : R
  pub reason : String

abbrev pub no_counters : Counters
no_counters = record {
  ingested = 0;
  invalid = 0;
  duplicate = 0;
  persisted = 0;
  alerts_created = 0;
  alerts_correlated = 0;
  batches = 0;
}

module _ {R : Type 0} ⦃F : Floats R⦄ where
  -- a count of milliseconds per event
  abbrev per_event_ms : R → ℕ → R
  per_event_ms secs persisted = fmul (fdiv secs (of_ℕ (max persisted 1))) (of_ℕ 1000)

  -- `payload` after `elapsed` seconds
  unfoldable pub payload : R → ℕ → Counters → R → R → Payload R
  payload elapsed now w batch_secs detect_secs = record {
    events_per_second = round (fdiv (of_ℕ w.ingested) elapsed) 2;
    events_processed_per_second = round (fdiv (of_ℕ w.persisted) elapsed) 2;
    pipeline_latency_ms = round (per_event_ms batch_secs w.persisted) 3;
    detection_latency_ms = round (per_event_ms detect_secs w.persisted) 3;
    alerts_per_minute = round (fmul (fdiv (of_ℕ w.alerts_created) elapsed) (of_ℕ 60)) 2;
    invalid_events_window = w.invalid;
    duplicate_events_window = w.duplicate;
    batches_window = max w.batches 1;
    pipeline_health_pct =
        round
          (fmul (fmax (of_ℕ 0) (fsub (of_ℕ 1) (fdiv (of_ℕ w.invalid) (of_ℕ (max w.ingested 1)))))
            (of_ℕ 100))
          2;
    window_seconds = round elapsed 1;
    updated_at = now;
  }
