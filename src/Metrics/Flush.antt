-- ===== src/Metrics/Flush.antt =====
-- backend/app/streaming/pipeline.py: `_flush_minute` with the alerts that it raises. `minute_text` is
-- the ISO text of the minute that is flushed.
use real_time_distributed_si.Prelude.{
  ℕ, String, Option, none, some, List, [], ◌∷◌, if◌then◌else◌, length, fmt,
}
use real_time_distributed_si.Floats.{Floats, fdiv, flt, dec, of_ℕ, round, fmin}
use real_time_distributed_si.Settings.{Settings}
use real_time_distributed_si.Enums.{DetectionKind, medium, high}
use real_time_distributed_si.Value.{Fields, end, field, text, float, dict}
use real_time_distributed_si.Detection.{Detection}
use real_time_distributed_si.Anomaly.{AnomalyResult, Baselines, observe}
use real_time_distributed_si.Metrics.{Minute, MlResult}

module _ {R : Type 0} ⦃F : Floats R⦄ where
  -- `features`
  unfoldable pub features : Minute → List (String × R)
  features m =
      ("events_per_min", of_ℕ m.events)
      ∷ ("auth_failures_per_min", of_ℕ m.auth_failures)
      ∷ ("unique_source_ips", of_ℕ (length m.ips))
      ∷ ("outbound_mib_per_min", round (fdiv (of_ℕ m.bytes_out) (of_ℕ 1048576)) 3)
      ∷ ("db_errors_per_min", of_ℕ m.db_errors)
      ∷ ("firewall_denies_per_min", of_ℕ m.firewall_denies)
      ∷ []

  abbrev with_found : Option (AnomalyResult R) → List (AnomalyResult R) → List (AnomalyResult R)
  with_found none rest = rest
  with_found (some a) rest = a ∷ rest

  -- the loop over the features
  unfoldable pub observe_all :
      Settings R → List (String × R) → Baselines R → List (AnomalyResult R) × Baselines R
  observe_all c [] bs = ([], bs)
  observe_all c ((metric, value) ∷ rest) bs =
      let (found, bs') = observe c metric value bs in
      let (more, bs'') = observe_all c rest bs' in (with_found found more, bs'')

  -- the detection of `_raise_anomaly_alert`
  unfoldable pub anomaly_detection : ℕ → String → AnomalyResult R → Detection R
  anomaly_detection now minute_text a = record {
    rule_id = "ANOM-001";
    kind = DetectionKind.anomaly;
    title = fmt ("Statistical anomaly: " ∷ a.metric ∷ []);
    description = a.anomaly_reason;
    severity = if flt a.anomaly_score (dec 85 2) then medium else high;
    confidence = round (fmin (dec 95 2) a.anomaly_score) 2;
    correlation_key = fmt ("anomaly:" ∷ a.metric ∷ ":" ∷ minute_text ∷ []);
    source_ip = none;
    affected_host = none;
    recommended_action =
        "Review what changed in the environment during this minute. Correlate with rule-based alerts and simulator activity.";
    evidence = [];
    involved_users = [];
    involved_hosts = [];
    event_count_hint = 1;
    anomaly_score = some a.anomaly_score;
    metadata = field "metric" (text a.metric) (
        field "value" (float a.value) (
          field "baseline_mean" (float a.baseline_mean)
            (field "baseline_std" (float a.baseline_std) (field "z_score" (float a.z_score) end))));
    triggered_at = some now;
  }

  abbrev feature_fields : List (String × R) → Fields R
  feature_fields [] = end
  feature_fields ((name, x) ∷ rest) = field name (float x) (feature_fields rest)

  -- the detection of `_raise_ml_alert`
  unfoldable pub ml_detection : ℕ → String → List (String × R) → MlResult R → Detection R
  ml_detection now minute_text feats ml = record {
    rule_id = "ML-001";
    kind = DetectionKind.ml;
    title = "Isolation Forest flagged an anomalous minute";
    description = ml.reason;
    severity = medium;
    confidence = round (fmin (dec 9 1) ml.score) 2;
    correlation_key = fmt ("ml:" ∷ minute_text ∷ []);
    source_ip = none;
    affected_host = none;
    recommended_action =
        "Demo/research model. Treat as a hint to inspect this minute's traffic mix; confirm with deterministic rules before acting.";
    evidence = [];
    involved_users = [];
    involved_hosts = [];
    event_count_hint = 1;
    anomaly_score = some ml.score;
    metadata =
        field "features" (dict (feature_fields feats)) (field "model" (text "IsolationForest") end);
    triggered_at = some now;
  }

  abbrev pub anomaly_detections : ℕ → String → List (AnomalyResult R) → List (Detection R)
  anomaly_detections now minute_text [] = []
  anomaly_detections now minute_text (a ∷ rest) =
      anomaly_detection now minute_text a ∷ anomaly_detections now minute_text rest

  abbrev pub ml_detections :
      ℕ → String → List (String × R) → Option (MlResult R) → List (Detection R)
  ml_detections now minute_text feats none = []
  ml_detections now minute_text feats (some ml) = ml_detection now minute_text feats ml ∷ []
