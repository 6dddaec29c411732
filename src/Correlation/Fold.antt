-- ===== src/Correlation/Fold.antt =====
-- backend/app/detection/correlation.py: what a further detection does to an alert.
use mathlib.Core.Path.{subst}
use real_time_distributed_si.Prelude.{
  ℕ, ◌≤◌, ◌<◌, String, ◌≡◌, false, arith, max, length, length-take-le, length-take_last-le, Bool,
  true, Option, none, some, List,
}
use real_time_distributed_si.Floats.{Floats, flt, fmax-ge_left, fmax-ge_right}
use real_time_distributed_si.Enums.{rank}
use real_time_distributed_si.Detection.{Detection}
use real_time_distributed_si.Alert.{Alert, Session, get_open_by_key}
use real_time_distributed_si.Correlation.{
  create, fold, merge_involved, max_involved, max_evidence, Applied, apply, settle, or_now, applied,
}

module _ {R : Type 0} ⦃F : Floats R⦄ where
  -- Folding a detection into an alert counts at least one event more and at least the hint, takes the
  -- worse of the two severities, and lowers the confidence below neither value.
  pub fold_lem :
      (now : ℕ) (d : Detection R) (a : Alert R)
      → (a.event_count < (fold now d a).event_count)
        × (d.event_count_hint ≤ (fold now d a).event_count)
        × (rank (fold now d a).severity ≡ max (rank a.severity) (rank d.severity))
        × (flt (fold now d a).confidence a.confidence ≡ false)
        × (flt (fold now d a).confidence d.confidence ≡ false)
  unfolding fold
  fold_lem now d a = (
    ground arith,
    ground arith,
    ground arith,
    fmax-ge_left a.confidence d.confidence,
    fmax-ge_right a.confidence d.confidence,
  )

  -- the lists of an alert are within the caps
  pub record IsBounded (a : Alert R) : Type 0 where
    pub users : length a.involved_users ≤ max_involved
    pub hosts : length a.involved_hosts ≤ max_involved
    pub evidence : length a.evidence ≤ max_evidence

  fold-IsBounded : (now : ℕ) (d : Detection R) (a : Alert R) → IsBounded (fold now d a)
  unfolding fold merge_involved
  fold-IsBounded now d a = record {
    users = length-take-le max_involved _;
    hosts = length-take-le max_involved _;
    evidence = length-take_last-le max_evidence _;
  }

  create-IsBounded :
      (alert_id : String) (now : ℕ) (d : Detection R) → IsBounded (create alert_id now d)
  unfolding create
  create-IsBounded alert_id now d = record {
    users = length-take-le max_involved d.involved_users;
    hosts = length-take-le max_involved d.involved_hosts;
    evidence = length-take-le max_evidence d.evidence;
  }

  applied-IsBounded :
      (a : Alert R) (created : Bool) (o : Option (List (Alert R))) (r : Applied R)
      → IsBounded a
      → applied a created o ≡ some r
      → IsBounded r.alert
  applied-IsBounded a created none r b h = absurd (ground (arith, h))
  applied-IsBounded a created (some rows) r b h = subst IsBounded (ground (arith, h)) b

  settle-IsBounded :
      (alert_id : String) (now : ℕ) (d : Detection R) (rows : List (Alert R)) (o : Option (Alert R))
      (r : Applied R)
      → settle alert_id now d rows o ≡ some r
      → IsBounded r.alert
  settle-IsBounded alert_id now d rows none r h =
      applied-IsBounded (create alert_id now d) true _ r (create-IsBounded alert_id now d) h
  settle-IsBounded alert_id now d rows (some old) r h =
      applied-IsBounded (fold now d old) false _ r (fold-IsBounded now d old) h

  -- Every alert that a call of the correlator writes, new or merged, holds at most 50 users, 50 hosts and
  -- 25 pieces of evidence, however many its detections name.
  pub apply-IsBounded :
      ⦃q : Session R⦄ (alert_id : String) (wall : ℕ) (d : Detection R) (rows : List (Alert R))
      (r : Applied R)
      → apply alert_id wall d rows ≡ some r
      → IsBounded r.alert
  unfolding apply
  apply-IsBounded alert_id wall d rows r h =
      settle-IsBounded alert_id (or_now d.triggered_at wall) d rows
        (get_open_by_key d.rule_id d.correlation_key rows) r h
