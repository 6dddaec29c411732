-- ===== src/Metrics/Alerts.antt =====
-- backend/app/streaming/pipeline.py: the alerts that the flush of a minute raises.
use real_time_distributed_si.Prelude.{
  ℕ, suc, String, false, ◌≡◌, refl, sym, List, [], ◌∷◌, arith, Bool-cases, inl, inr, ◌==◌,
}
use mathlib.Core.Path.{subst}
use real_time_distributed_si.Floats.{Floats}
use real_time_distributed_si.Event.{SecurityEvent}
use real_time_distributed_si.Settings.{Settings}
use real_time_distributed_si.Detection.{Detection, Outcome, ok, raised}
use real_time_distributed_si.Alert.{Alert, Session}
use real_time_distributed_si.Correlation.Total.{apply_total}
use real_time_distributed_si.Pipeline.{Pipeline, Fault, is_fault, on_commit}
use real_time_distributed_si.Pipeline.Success.{IsSound, NewIds, NewIds-next}
use real_time_distributed_si.Metrics.{Feed, count_events}
use real_time_distributed_si.Metrics.Minutes.{roll-alerts}
use real_time_distributed_si.Metrics.Update.{
  Ticks, persist_all, roll, roll_over, next_minute, update_metrics,
}

module _ {R : Type 0} where
  -- the alerts stay sound, and without a fault at a commit nothing is raised
  pub record Keeps (faults : ℕ → Fault) (o : Outcome (Unit {0})) (rows : List (Alert R))
      : Type 0 where
    pub sound : IsSound rows
    pub done : ((i : ℕ) → is_fault (faults i) on_commit ≡ false) → o ≡ ok tt

module _ {R S : Type 0} ⦃F : Floats R⦄ ⦃q : Session R⦄ where
  persist_all-Keeps :
      (faults : ℕ → Fault) (alert_ids : ℕ → String) (now i : ℕ) (ds : List (Detection R))
      (p : Pipeline R S)
      → IsSound p.alerts
      → NewIds alert_ids i p.alerts
      → Keeps faults
          (persist_all faults alert_ids now i ds p).0
          (persist_all faults alert_ids now i ds p).1.alerts
  unfolding persist_all
  persist_all-Keeps faults alert_ids now i [] p s new = record { sound = s; done = λ h. refl }
  persist_all-Keeps faults alert_ids now i (d ∷ ds) p s new =
      let (r, e, c) =
        apply_total (alert_ids i) now d p.alerts s.distinct s.one (new.absent i (omega arith)) in
      rw e (elim (Bool-cases (is_fault (faults i) on_commit)) [
        | inl fails ↦ rw fails (record { sound = s; done = λ h. absurd (ground (arith, h i)) })
        | inr fine ↦ rw fine (
            persist_all-Keeps faults alert_ids now (suc i) ds _
              (record { distinct = c.distinct; one = c.one })
              (NewIds-next alert_ids now i d p.alerts r.rows c new))
      ])

  next_minute-Keeps :
      (faults : ℕ → Fault) (n : ℕ) (f : Feed R) (r : Outcome (Unit {0}) × Pipeline R S)
      → Keeps faults r.0 r.1.alerts
      → Keeps faults (next_minute n f r).0 (next_minute n f r).2.alerts
  next_minute-Keeps faults n f (ok u, p) k = record { sound = k.sound; done = λ h. refl }
  next_minute-Keeps faults n f (raised m, p) k = record { sound = k.sound; done = k.done }

  roll_over-Keeps :
      (c : Settings R) (t : Ticks R) (f : Feed R) (p : Pipeline R S)
      → IsSound p.alerts
      → NewIds t.alert_ids 0 p.alerts
      → Keeps t.faults (roll_over c t (f, p)).0 (roll_over c t (f, p)).2.alerts
  unfolding roll_over
  roll_over-Keeps c t f p s new = elim (Bool-cases (t.now_minute == f.minute.bucket)) [
    | inl same ↦ rw same (record { sound = s; done = λ h. refl })
    | inr next ↦ rw next (
        next_minute-Keeps t.faults t.now_minute _ _
          (persist_all-Keeps t.faults t.alert_ids t.now 0 _ p s new))
  ]

  -- A round of the metrics keeps the alert table sound, whatever the anomaly detector and the ML
  -- model find and whichever of the commits of its alerts fail, and it raises nothing unless a commit fails. The ids for
  -- new alerts are new to the table.
  pub update_metrics-Keeps :
      (c : Settings R) (t : Ticks R) (events : List (SecurityEvent R)) (f : Feed R)
      (p : Pipeline R S)
      → IsSound p.alerts
      → NewIds t.alert_ids 0 p.alerts
      → Keeps t.faults
          (update_metrics c t events (f, p)).0
          (update_metrics c t events (f, p)).2.alerts
  unfolding update_metrics
  update_metrics-Keeps c t events f p s new =
      let rolled = roll t (record f { minute = count_events events f.minute }, p) in
      let same = roll-alerts t (record f { minute = count_events events f.minute }) p in
      roll_over-Keeps c t rolled.0 rolled.1 (subst IsSound (sym same) s)
        (subst (NewIds t.alert_ids 0) (sym same) new)
