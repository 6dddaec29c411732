-- ===== src/Metrics/Update.antt =====
-- backend/app/streaming/pipeline.py: `_update_metrics` after a batch, and the transactions of the
-- anomaly and ML alerts. The clocks and the ML model are arguments.
use real_time_distributed_si.Prelude.{
  ℕ, suc, String, Option, none, some, List, [], ◌∷◌, ◌++◌, if◌then◌else◌, take, ◌==◌,
}
use real_time_distributed_si.Floats.{Floats, flt, of_ℕ}
use real_time_distributed_si.Settings.{Settings}
use real_time_distributed_si.Event.{SecurityEvent}
use real_time_distributed_si.Detection.{Detection, Outcome, ok, raised}
use real_time_distributed_si.Alert.{Session}
use real_time_distributed_si.Correlation
use real_time_distributed_si.Correlation.{Applied}
use real_time_distributed_si.Anomaly.{Baselines}
use real_time_distributed_si.Pipeline.{Pipeline, alert_message, Fault, is_fault, on_commit}
use real_time_distributed_si.Metrics.{
  Minute, MlResult, Feed, payload, no_counters, fresh_minute, count_events,
}
use real_time_distributed_si.Metrics.Flush.{
  features, observe_all, anomaly_detections, ml_detections,
}

-- what `_update_metrics` draws from outside, with the fault of each transaction, counted from 0; `ml` is none where the layer is off or finds nothing
pub record Ticks (R : Type 0) : Type 0 where
  pub now : ℕ
  pub now_minute : ℕ
  pub minute_text : String
  pub elapsed : R
  pub ml : List (String × R) → Option (MlResult R)
  pub alert_ids : ℕ → String
  pub faults : ℕ → Fault

module _ {R : Type 0} ⦃F : Floats R⦄ where
  -- the detections of `_flush_minute` with the baselines that it leaves
  unfoldable pub minute_detections :
      Settings R → Ticks R → Minute → Baselines R → List (Detection R) × Baselines R
  unfolding observe_all
  minute_detections c t m bs =
      let (found, bs') = observe_all c (features m) bs in
      (
        anomaly_detections t.now t.minute_text found
            ++ ml_detections t.now t.minute_text (features m) (t.ml (features m)),
        bs',
      )

module _ {R S : Type 0} ⦃F : Floats R⦄ ⦃q : Session R⦄ where
  abbrev publish : Applied R → Pipeline R S → Pipeline R S
  publish r p = record p { alerts = r.rows; published = p.published ++ alert_message r.alert ∷ [] }

  -- `_persist_standalone_alert`, a transaction of its own
  abbrev pub persist_applied :
      Fault → Pipeline R S → Option (Applied R) → Outcome (Unit {0}) × Pipeline R S
  persist_applied fault p none = (raised "IntegrityError", p)
  persist_applied fault p (some r) =
      if is_fault fault on_commit then (raised "OperationalError", p) else (ok tt, publish r p)

  unfoldable pub persist_standalone :
      Fault → String → ℕ → Detection R → Pipeline R S → Outcome (Unit {0}) × Pipeline R S
  persist_standalone fault alert_id now d p =
      persist_applied fault p (Correlation.apply alert_id now d p.alerts)

  abbrev pub and_go :
      Outcome (Unit {0}) × Pipeline R S
      → (Pipeline R S → Outcome (Unit {0}) × Pipeline R S)
      → Outcome (Unit {0}) × Pipeline R S
  and_go (ok u, p) rest = rest p
  and_go (raised m, p) rest = (raised m, p)

  -- the alerts of a minute one after the other, each in a transaction of its own; a raise ends the loop
  unfoldable pub persist_all :
      (ℕ → Fault)
      → (ℕ → String)
      → ℕ
      → ℕ
      → List (Detection R)
      → Pipeline R S
      → Outcome (Unit {0}) × Pipeline R S
  unfolding persist_standalone
  persist_all faults alert_ids now i [] p = (ok tt, p)
  persist_all faults alert_ids now i (d ∷ ds) p =
      and_go (persist_standalone (faults i) (alert_ids i) now d p)
        (persist_all faults alert_ids now (suc i) ds)

  -- the measurement window of about five seconds
  unfoldable pub roll : Ticks R → Feed R × Pipeline R S → Feed R × Pipeline R S
  unfolding payload
  roll t (f, p) = if flt t.elapsed (of_ℕ 5) then (f, p) else (
    record f {
      history = take 241 (payload t.elapsed t.now p.w f.batch_secs f.detect_secs ∷ f.history);
      batch_secs = of_ℕ 0;
      detect_secs = of_ℕ 0;
    },
    record p { w = no_counters },
  )

  -- the reset after `_flush_minute`, which a raise skips
  abbrev pub next_minute :
      ℕ → Feed R → Outcome (Unit {0}) × Pipeline R S → Outcome (Unit {0}) × Feed R × Pipeline R S
  next_minute now_minute f (ok u, p) = (ok tt, record f { minute = fresh_minute now_minute }, p)
  next_minute now_minute f (raised m, p) = (raised m, f, p)

  -- the rollover: `_flush_minute`, then the reset
  unfoldable pub roll_over :
      Settings R → Ticks R → Feed R × Pipeline R S → Outcome (Unit {0}) × Feed R × Pipeline R S
  unfolding minute_detections persist_all
  roll_over c t (f, p) =
      if t.now_minute == f.minute.bucket
      then (ok tt, f, p)
      else (let (ds, bs) = minute_detections c t f.minute f.baselines in
          next_minute t.now_minute (record f { baselines = bs; last_minute = features f.minute })
            (persist_all t.faults t.alert_ids t.now 0 ds p))

  -- `_update_metrics`
  unfoldable pub update_metrics :
      Settings R
      → Ticks R
      → List (SecurityEvent R)
      → Feed R × Pipeline R S
      → Outcome (Unit {0}) × Feed R × Pipeline R S
  unfolding count_events roll roll_over
  update_metrics c t events (f, p) =
      roll_over c t (roll t (record f { minute = count_events events f.minute }, p))
