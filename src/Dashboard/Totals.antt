-- ===== src/Dashboard/Totals.antt =====
-- backend/app/services/metrics_service.py: the counts of the dashboard add up.
use real_time_distributed_si.Prelude.{ℕ, ◌+◌, ◌≡◌, refl, List, [], ◌∷◌, arith}
use real_time_distributed_si.Enums.{Severity, AlertStatus, opened, is_active, severity_value}
use real_time_distributed_si.Alert.{same_status}
use real_time_distributed_si.Dashboard.{Group, Tally, empty_tally, tally_group, tally, total_alerts}

-- the alerts that a tally has counted_alerts, and the active ones by severity
abbrev pub counted_alerts : Tally → ℕ
counted_alerts t = t.total_active + t.resolved_alerts + t.false_positives

abbrev pub by_severity : Tally → ℕ
by_severity t =
    t.active Severity.info
    + t.active Severity.low
    + t.active Severity.medium
    + t.active Severity.high
    + t.active Severity.critical

tally_group-counted_alerts :
    (st : AlertStatus) (sev : Severity) (n : ℕ) (t : Tally)
    → counted_alerts (tally_group st sev n t) ≡ counted_alerts t + n
unfolding tally_group is_active same_status
tally_group-counted_alerts AlertStatus.opened sev n t = omega arith
tally_group-counted_alerts AlertStatus.acknowledged sev n t = omega arith
tally_group-counted_alerts AlertStatus.investigating sev n t = omega arith
tally_group-counted_alerts AlertStatus.resolved sev n t = omega arith
tally_group-counted_alerts AlertStatus.false_positive sev n t = omega arith

add_active-sum :
    (sev : Severity) (n : ℕ) (t : Tally)
    → by_severity (tally_group opened sev n t) ≡ by_severity t + n
unfolding tally_group is_active severity_value
add_active-sum Severity.info n t = omega arith
add_active-sum Severity.low n t = omega arith
add_active-sum Severity.medium n t = omega arith
add_active-sum Severity.high n t = omega arith
add_active-sum Severity.critical n t = omega arith

tally_group-by_severity :
    (st : AlertStatus) (sev : Severity) (n : ℕ) (t : Tally)
    → by_severity t ≡ t.total_active
    → by_severity (tally_group st sev n t) ≡ (tally_group st sev n t).total_active
unfolding tally_group is_active same_status
tally_group-by_severity AlertStatus.opened sev n t h = omega (arith, add_active-sum sev n t, h)
tally_group-by_severity AlertStatus.acknowledged sev n t h =
    omega (arith, add_active-sum sev n t, h)
tally_group-by_severity AlertStatus.investigating sev n t h =
    omega (arith, add_active-sum sev n t, h)
tally_group-by_severity AlertStatus.resolved sev n t h = h
tally_group-by_severity AlertStatus.false_positive sev n t h = h

tally-counted_alerts :
    (groups : List Group) (t : Tally)
    → counted_alerts (tally groups t) ≡ counted_alerts t + total_alerts groups
unfolding tally total_alerts
tally-counted_alerts [] t = omega arith
tally-counted_alerts ((st, sev, n) ∷ groups) t = omega (
  arith,
  tally-counted_alerts groups (tally_group st sev n t),
  tally_group-counted_alerts st sev n t,
)

tally-by_severity :
    (groups : List Group) (t : Tally)
    → by_severity t ≡ t.total_active
    → by_severity (tally groups t) ≡ (tally groups t).total_active
unfolding tally
tally-by_severity [] t h = h
tally-by_severity ((st, sev, n) ∷ groups) t h =
    tally-by_severity groups (tally_group st sev n t) (tally_group-by_severity st sev n t h)

-- The counts of the dashboard add up: the active, resolved and false positive alerts together are all
-- alerts, and the active alerts of the five severities together are the active alerts.
pub tally_lem :
    (groups : List Group)
    → (counted_alerts (tally groups empty_tally) ≡ total_alerts groups)
      × (by_severity (tally groups empty_tally) ≡ (tally groups empty_tally).total_active)
tally_lem groups = (
  omega (arith, tally-counted_alerts groups empty_tally),
  tally-by_severity groups empty_tally refl,
)
