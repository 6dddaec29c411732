-- ===== src/Dashboard/Counts.antt =====
-- backend/app/services/metrics_service.py on the counts of
-- `AlertRepository.counts_by_status_severity` of backend/app/storage/repositories.py: from the rows of
-- the table of alerts to the counts of the dashboard.
use real_time_distributed_si.Prelude.{
  ℕ, ◌+◌, ◌≡◌, refl, ◌∙◌, String, Bool, true, some, List, [], ◌∷◌, ◌&&◌, arith, if◌then◌else◌,
  length, filter, map, fmt, contains,
}
use real_time_distributed_si.Enums.{
  Severity, AlertStatus, acknowledged, investigating, resolved, false_positive, is_active,
  severity_value, alert_status_value, alert_status_of, severity_of,
}
use real_time_distributed_si.Alert.{Alert, same_status}
use real_time_distributed_si.Dashboard.{
  Group, Tally, empty_tally, tally, tally_group, total_alerts, parsed_entry, parsed_entries,
  alert_counts,
}
use real_time_distributed_si.Query.{Database, group_by}
use real_time_distributed_si.Query.Page.{filter-true}
use real_time_distributed_si.Query.Sums.{sum_of, sum_of-map}
use real_time_distributed_si.Query.Perms.{sum_of-perm}
use real_time_distributed_si.Query.Groups.{sum_of-counts}
use real_time_distributed_si.Query.Keys.{status_key, severity_key, pair_key, same_severity}
use real_time_distributed_si.Query.Alerts.{count_key, counts_by_status_severity}

-- the key that the repository writes is read back
pub parsed_entry-count_key :
    (st : AlertStatus) (sev : Severity) (n : ℕ)
    → parsed_entry (count_key st sev, n) ≡ some (st, sev, n)
unfolding parsed_entry count_key fmt alert_status_value severity_value contains alert_status_of
    severity_of
parsed_entry-count_key AlertStatus.opened Severity.info n = refl
parsed_entry-count_key AlertStatus.opened _ n = refl
parsed_entry-count_key AlertStatus.acknowledged Severity.info n = refl
parsed_entry-count_key AlertStatus.acknowledged _ n = refl
parsed_entry-count_key AlertStatus.investigating Severity.info n = refl
parsed_entry-count_key AlertStatus.investigating _ n = refl
parsed_entry-count_key AlertStatus.resolved Severity.info n = refl
parsed_entry-count_key AlertStatus.resolved _ n = refl
parsed_entry-count_key AlertStatus.false_positive Severity.info n = refl
parsed_entry-count_key AlertStatus.false_positive _ n = refl

module _ {A : Type 0} where
  abbrev written_group : (AlertStatus × Severity) × List A → String × ℕ
  written_group g = (count_key g.0.0 g.0.1, length g.1)

  abbrev read_group : (AlertStatus × Severity) × List A → Group
  read_group g = (g.0.0, g.0.1, length g.1)

  parsed_entries-written :
      (groups : List ((AlertStatus × Severity) × List A))
      → parsed_entries (map written_group groups) ≡ some (map read_group groups)
  unfolding parsed_entries
  parsed_entries-written [] = refl
  parsed_entries-written (((st, sev), xs) ∷ groups) =
      rw (parsed_entry-count_key st sev (length xs), parsed_entries-written groups) refl

-- what one group adds to a count of the groups whose status and severity pass
abbrev share : (AlertStatus × Severity → Bool) → Group → ℕ
share p (st, sev, n) = if p (st, sev) then n else 0

-- a count that each group moves by its share
abbrev Counts : (Tally → ℕ) → (AlertStatus × Severity → Bool) → Type 0
Counts f p =
    (st : AlertStatus) (sev : Severity) (n : ℕ) (t : Tally)
    → f (tally_group st sev n t) ≡ f t + share p (st, sev, n)

tally-Counts :
    (f : Tally → ℕ) (p : AlertStatus × Severity → Bool)
    → Counts f p
    → (groups : List Group) (t : Tally) → f (tally groups t) ≡ f t + sum_of (share p) groups
unfolding tally sum_of
tally-Counts f p h [] t = omega arith
tally-Counts f p h ((st, sev, n) ∷ groups) t =
    omega (arith, h st sev n t, tally-Counts f p h groups (tally_group st sev n t))

abbrev status_column : AlertStatus → AlertStatus × Severity → Bool
status_column st p = same_status p.0 st

abbrev active_of : Severity → AlertStatus × Severity → Bool
active_of sev p = is_active p.0 && same_severity p.1 sev

total_active-Counts : Counts (λ t. t.total_active) (λ p. is_active p.0)
unfolding tally_group is_active same_status
total_active-Counts AlertStatus.opened sev n t = omega arith
total_active-Counts AlertStatus.acknowledged sev n t = omega arith
total_active-Counts AlertStatus.investigating sev n t = omega arith
total_active-Counts AlertStatus.resolved sev n t = omega arith
total_active-Counts AlertStatus.false_positive sev n t = omega arith

resolved_alerts-Counts : Counts (λ t. t.resolved_alerts) (status_column resolved)
unfolding tally_group is_active same_status
resolved_alerts-Counts AlertStatus.opened sev n t = omega arith
resolved_alerts-Counts AlertStatus.acknowledged sev n t = omega arith
resolved_alerts-Counts AlertStatus.investigating sev n t = omega arith
resolved_alerts-Counts AlertStatus.resolved sev n t = omega arith
resolved_alerts-Counts AlertStatus.false_positive sev n t = omega arith

false_positives-Counts : Counts (λ t. t.false_positives) (status_column false_positive)
unfolding tally_group is_active same_status
false_positives-Counts AlertStatus.opened sev n t = omega arith
false_positives-Counts AlertStatus.acknowledged sev n t = omega arith
false_positives-Counts AlertStatus.investigating sev n t = omega arith
false_positives-Counts AlertStatus.resolved sev n t = omega arith
false_positives-Counts AlertStatus.false_positive sev n t = omega arith

investigating_alerts-Counts : Counts (λ t. t.investigating_alerts) (status_column investigating)
unfolding tally_group is_active same_status
investigating_alerts-Counts AlertStatus.opened sev n t = omega arith
investigating_alerts-Counts AlertStatus.acknowledged sev n t = omega arith
investigating_alerts-Counts AlertStatus.investigating sev n t = omega arith
investigating_alerts-Counts AlertStatus.resolved sev n t = omega arith
investigating_alerts-Counts AlertStatus.false_positive sev n t = omega arith

acknowledged_alerts-Counts : Counts (λ t. t.acknowledged_alerts) (status_column acknowledged)
unfolding tally_group is_active same_status
acknowledged_alerts-Counts AlertStatus.opened sev n t = omega arith
acknowledged_alerts-Counts AlertStatus.acknowledged sev n t = omega arith
acknowledged_alerts-Counts AlertStatus.investigating sev n t = omega arith
acknowledged_alerts-Counts AlertStatus.resolved sev n t = omega arith
acknowledged_alerts-Counts AlertStatus.false_positive sev n t = omega arith

active-Counts : (sev : Severity) → Counts (λ t. t.active sev) (active_of sev)
unfolding tally_group is_active same_status
active-Counts s AlertStatus.opened sev n t = ground arith
active-Counts s AlertStatus.acknowledged sev n t = ground arith
active-Counts s AlertStatus.investigating sev n t = ground arith
active-Counts s AlertStatus.resolved sev n t = ground arith
active-Counts s AlertStatus.false_positive sev n t = ground arith

total_alerts-share : (groups : List Group) → total_alerts groups ≡ sum_of (share (λ p. true)) groups
unfolding total_alerts sum_of
total_alerts-share [] = refl
total_alerts-share ((st, sev, n) ∷ groups) = omega (arith, total_alerts-share groups)

module _ {R : Type 0} ⦃db : Database⦄ (rows : List (Alert R)) where
  abbrev columns : Alert R → AlertStatus × Severity
  columns a = (a.status, a.severity)

  abbrev stored : List Group
  stored = map read_group (db.unordered (group_by columns rows))

  -- the shares of the groups are the rows that pass
  shares :
      (p : AlertStatus × Severity → Bool)
      → sum_of (share p) stored ≡ length (filter (λ a. p (columns a)) rows)
  shares p =
      sum_of-map (share p) read_group (db.unordered (group_by columns rows))
      ∙ sum_of-perm _ (db.unordered-perm (group_by columns rows))
      ∙ sum_of-counts columns p rows

  counted :
      (f : Tally → ℕ) (p : AlertStatus × Severity → Bool)
      → Counts f p
      → f empty_tally ≡ 0
      → f (tally stored empty_tally) ≡ length (filter (λ a. p (columns a)) rows)
  counted f p h z = omega (arith, tally-Counts f p h stored empty_tally, shares p)

-- the counts of the dashboard are the numbers of rows of the table of alerts
pub record IsCount {R : Type 0} (rows : List (Alert R)) (t : Tally) : Type 0 where
  pub total_active-eq : t.total_active ≡ length (filter (λ a. is_active a.status) rows)
  pub active-eq :
      (sev : Severity)
      → t.active sev
        ≡ length (filter (λ a. is_active a.status && same_severity a.severity sev) rows)
  pub resolved-eq : t.resolved_alerts ≡ length (filter (λ a. same_status a.status resolved) rows)
  pub false_positives-eq :
      t.false_positives ≡ length (filter (λ a. same_status a.status false_positive) rows)
  pub investigating-eq :
      t.investigating_alerts ≡ length (filter (λ a. same_status a.status investigating) rows)
  pub acknowledged-eq :
      t.acknowledged_alerts ≡ length (filter (λ a. same_status a.status acknowledged) rows)

-- The dashboard reads the counts of the repository without a ValueError. In every order of the groups,
-- its number of alerts is the number of rows, and its counts of active alerts, of active alerts of each
-- severity, and of resolved, false positive, investigated and acknowledged alerts are the numbers of
-- rows of that status and severity.
pub alert_counts_lem :
    {R : Type 0} ⦃db : Database⦄ (rows : List (Alert R))
    → (t : Tally) × (alert_counts (counts_by_status_severity rows) ≡ some (t, length rows))
      × IsCount rows t
unfolding alert_counts counts_by_status_severity
alert_counts_lem rows = (
  tally (stored rows) empty_tally,
  rw
      (
        parsed_entries-written,
        total_alerts-share (stored rows),
        shares rows (λ p. true),
        filter-true,
      )
      refl,
  record {
    total_active-eq = counted rows _ (λ p. is_active p.0) total_active-Counts refl;
    active-eq = λ sev. counted rows _ (active_of sev) (active-Counts sev) refl;
    resolved-eq = counted rows _ (status_column resolved) resolved_alerts-Counts refl;
    false_positives-eq = counted rows _ (status_column false_positive) false_positives-Counts refl;
    investigating-eq =
        counted rows _ (status_column investigating) investigating_alerts-Counts refl;
    acknowledged-eq = counted rows _ (status_column acknowledged) acknowledged_alerts-Counts refl;
  },
)
