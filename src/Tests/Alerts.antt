-- ===== src/Tests/Alerts.antt =====
-- The theorems on correlation and on the analyst workflow at concrete inputs.
use real_time_distributed_si.Prelude.{
  ℕ, ◌<◌, ◌≤◌, ◌≡◌, refl, arith, inl, none, some, [], ◌∷◌, max, if◌then◌else◌, not, false, filter,
}
use real_time_distributed_si.Floats.{flt}
use real_time_distributed_si.Enums.{high, resolved, opened, rank, is_active}
use real_time_distributed_si.Value.{get}
use real_time_distributed_si.Alert
use real_time_distributed_si.Alert.{Alert, same_status, open_by_key, open_status}
use real_time_distributed_si.Alert.Rows.{OneActive}
use real_time_distributed_si.Correlation.{Applied, apply, create, fold}
use real_time_distributed_si.Correlation.Total.{Correlated, apply_total}
use real_time_distributed_si.Correlation.Fold.{fold_lem}
use real_time_distributed_si.Triage.{Database, update_alert_status, is_allowed, integrity_error}
use real_time_distributed_si.Triage.Workflow.{is_allowed_lem}
use real_time_distributed_si.Triage.Update.{Outcome, update_alert_status-Outcome, second_of_status}
use real_time_distributed_si.Tests.Fixtures.{session, thousandths, found, first_alert}

one_row : OneActive (first_alert ∷ [])
unfolding open_by_key filter
one_row rule_id key = ground arith

apply_total_example :
    (r : Applied ℕ) × (apply "a1" 50 found (first_alert ∷ []) ≡ some r)
    × Correlated "a1" "RULE-001" "srcip:203.0.113.9" (first_alert ∷ []) r.rows
unfolding create
apply_total_example = apply_total "a1" 50 found (first_alert ∷ []) (tt, tt) one_row (refl, tt)

fold_lem_example :
    (first_alert.event_count < (fold 50 found first_alert).event_count)
    × (10 ≤ (fold 50 found first_alert).event_count)
    × (rank (fold 50 found first_alert).severity ≡ max (rank first_alert.severity) (rank high))
    × (flt (fold 50 found first_alert).confidence first_alert.confidence ≡ false)
    × (flt (fold 50 found first_alert).confidence 600 ≡ false)
fold_lem_example = fold_lem 50 found first_alert

is_allowed_lem_example :
    is_allowed opened resolved
    ≡ (if is_active opened then not (same_status resolved opened) else same_status resolved opened)
is_allowed_lem_example = is_allowed_lem opened resolved

abbrev one_alert : Database ℕ
one_alert = record { alerts = first_alert ∷ []; audits = [] }

update_alert_status-Outcome_example :
    Outcome "a0" "ana" resolved one_alert
      (update_alert_status 60 "t" "a0" resolved "ana" none none one_alert)
update_alert_status-Outcome_example =
    update_alert_status-Outcome 60 "t" "a0" resolved "ana" none none one_alert

-- the alert raised again after the first was resolved
abbrev second_alert : Alert ℕ
second_alert = create "a1" 90 found

abbrev two_alerts : Database ℕ
two_alerts = record {
  alerts = record first_alert { status = resolved } ∷ second_alert ∷ [];
  audits = [];
}

second_of_status_example :
    update_alert_status 99 "t" "a1" resolved "ana" none none two_alerts
    ≡ (integrity_error, two_alerts)
unfolding create Alert.get same_status is_allowed get
second_of_status_example =
    second_of_status 99 "t" "a1" resolved "ana" none none two_alerts second_alert
      (record first_alert { status = resolved }) [] refl refl refl refl (inl refl) refl refl refl
      refl
