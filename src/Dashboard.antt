-- ===== src/Dashboard.antt =====
-- backend/app/services/metrics_service.py: the counts of alerts of `dashboard_metrics`, from the
-- groups that `AlertRepository.counts_by_status_severity` counts. A severity is one of the five: no
-- row has another.
pub mod Totals
pub mod Counts
use real_time_distributed_si.Prelude.{
  ℕ, ◌+◌, String, Bool, true, false, List, [], ◌∷◌, ◌&&◌, if◌then◌else◌, str_eq, length, filter,
  Option, none, some, contains, ◌==◌, ◌>>=◌,
}
use Prim.Native.Char.{code}
use real_time_distributed_si.Enums.{
  Severity, AlertStatus, opened, acknowledged, investigating, resolved, false_positive, is_active,
  severity_value, alert_status_of, severity_of,
}
use real_time_distributed_si.Alert.{Alert, same_status}

-- a group of alerts with its size
abbrev pub Group : Type 0
Group = AlertStatus × Severity × ℕ

pub record Tally : Type 0 where
  pub active : Severity → ℕ
  pub total_active : ℕ
  pub resolved_alerts : ℕ
  pub false_positives : ℕ
  pub investigating_alerts : ℕ
  pub acknowledged_alerts : ℕ

abbrev pub empty_tally : Tally
empty_tally = record {
  active = λ sev. 0;
  total_active = 0;
  resolved_alerts = 0;
  false_positives = 0;
  investigating_alerts = 0;
  acknowledged_alerts = 0;
}

abbrev add_active : Severity → ℕ → (Severity → ℕ) → Severity → ℕ
add_active sev n active t =
    if str_eq (severity_value sev) (severity_value t) then active t + n else active t

-- one group of the loop
unfoldable pub tally_group : AlertStatus → Severity → ℕ → Tally → Tally
tally_group st sev n t =
    if is_active st
    then record t {
      active = add_active sev n t.active;
      total_active = t.total_active + n;
      investigating_alerts =
          if same_status st investigating
          then t.investigating_alerts + n
          else t.investigating_alerts;
      acknowledged_alerts =
          if same_status st investigating
          then t.acknowledged_alerts
          else if same_status st acknowledged
          then t.acknowledged_alerts + n
          else t.acknowledged_alerts;
    }
    else if same_status st resolved
    then record t { resolved_alerts = t.resolved_alerts + n }
    else if same_status st false_positive
    then record t { false_positives = t.false_positives + n }
    else t

-- the loop
unfoldable pub tally : List Group → Tally → Tally
unfolding tally_group
tally [] t = t
tally ((st, sev, n) ∷ groups) t = tally groups (tally_group st sev n t)

-- `sum(counts.values())`
unfoldable pub total_alerts : List Group → ℕ
total_alerts [] = 0
total_alerts ((st, sev, n) ∷ groups) = n + total_alerts groups

-- `key.split(":")` into the two parts of a key; none where there are not two
unfoldable pub split_key : String → Option (String × String)
split_key String.[] = none
split_key (String.◌∷◌ c s) =
    let rest = split_key s in
    if code c == 58
    then (if contains s ":" then none else some ("", s))
    else elim rest [ none ↦ none | some p ↦ some (String.◌∷◌ c p.0, p.1) ]

-- one entry of the counts
unfoldable pub parsed_entry : String × ℕ → Option Group
unfolding split_key
parsed_entry (key, n) = do
  parts ← split_key key
  st ← alert_status_of parts.0
  severity ← severity_of parts.1
  some (st, severity, n)

-- the entries of the counts; none for a ValueError
unfoldable pub parsed_entries : List (String × ℕ) → Option (List Group)
unfolding parsed_entry
parsed_entries [] = some []
parsed_entries (e ∷ entries) = do
  group ← parsed_entry e
  groups ← parsed_entries entries
  some (group ∷ groups)

-- the counts of alerts of `dashboard_metrics`
unfoldable pub alert_counts : List (String × ℕ) → Option (Tally × ℕ)
unfolding parsed_entries tally total_alerts
alert_counts entries = do
  groups ← parsed_entries entries
  some (tally groups empty_tally, total_alerts groups)
