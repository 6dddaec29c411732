-- ===== src/Query/Alerts.antt =====
-- The queries of `AlertRepository` in backend/app/storage/repositories.py on the rows of the table of
-- alerts. A caller of a query with a plain LIMIT gives it a natural number.
use real_time_distributed_si.Prelude.{
  ℕ, String, Bool, true, false, Option, none, some, List, [], ◌∷◌, ℤ, if◌then◌else◌, leb, ltb,
  str_eq, fmt, filter, length, take, min, map, is_nonempty,
}
use real_time_distributed_si.Enums.{
  Severity, AlertStatus, severity_value, alert_status_value, detection_kind_value,
}
use real_time_distributed_si.Alert.{Alert, is_open_row}
use real_time_distributed_si.Query.{Database, max_limit, paginate, where_if, group_by}
use real_time_distributed_si.Query.Keys.{
  text_key, optional_key, instant_key, pair_key, status_key, severity_key,
}
use real_time_distributed_si.Query.Sums.{sum_of}
use real_time_distributed_si.Query.Events.{column_is, bucket_of}

-- the keyword arguments of `search`
pub record AlertFilters : Type 0 where
  pub status : Option String
  pub active_only : Bool
  pub severity : Option String
  pub rule_id : Option String
  pub source_ip : Option String

pub record Activity : Type 0 where
  pub trigger_count : ℕ
  pub active_count : ℕ
  pub last_triggered : Option ℕ

pub record AffectedHost : Type 0 where
  pub host : Option String
  pub alert_count : ℕ
  pub event_count : ℕ
  pub critical_alerts : ℕ

-- MAX, which is NULL of no rows
unfoldable pub max_of : {A : Type 0} → (A → ℕ) → List A → Option ℕ
max_of k [] = none
max_of k (x ∷ xs) = elim (max_of k xs) [
  | none ↦ some (k x)
  | some m ↦ some (if ltb m (k x) then k x else m)
]

-- `f"{st}:{sev}"`
unfoldable pub count_key : AlertStatus → Severity → String
count_key st sev = fmt (alert_status_value st ∷ ":" ∷ severity_value sev ∷ [])

module _ {R : Type 0} ⦃db : Database⦄ where
  -- the conditions of `search`
  abbrev pub alert_severity_is : String → Alert R → Bool
  alert_severity_is s a = str_eq (severity_value a.severity) s

  abbrev pub alert_rule_is : String → Alert R → Bool
  alert_rule_is s a = str_eq a.rule_id s

  abbrev pub alert_ip_is : String → Alert R → Bool
  alert_ip_is s a = column_is s a.source_ip

  -- `if status: ... elif active_only: ...`
  unfoldable pub of_status : Option String → Bool → List (Alert R) → List (Alert R)
  of_status none active_only rows = if active_only then filter is_open_row rows else rows
  of_status (some s) active_only rows =
      if is_nonempty s
      then filter (λ a. str_eq (alert_status_value a.status) s) rows
      else if active_only
      then filter is_open_row rows
      else rows

  -- the query of `search`
  unfoldable pub selected : AlertFilters → List (Alert R) → List (Alert R)
  unfolding of_status where_if column_is
  selected f rows =
      let rows = of_status f.status f.active_only rows in
      let rows = where_if f.severity alert_severity_is rows in
      let rows = where_if f.rule_id alert_rule_is rows in where_if f.source_ip alert_ip_is rows

  -- `search`
  unfoldable pub search_alerts : ℤ → ℤ → AlertFilters → List (Alert R) → List (Alert R) × ℕ
  unfolding paginate selected
  search_alerts limit offset f rows =
      let base = selected f rows in
      (paginate limit offset (db.order_by_desc (λ a. a.last_seen) base), length base)

  -- `counts_by_status_severity`, the dictionary in the order of its groups
  unfoldable pub counts_by_status_severity : List (Alert R) → List (String × ℕ)
  unfolding group_by count_key
  counts_by_status_severity rows =
      let groups = group_by {K = AlertStatus × Severity} (λ a. (a.status, a.severity)) rows in
      map (λ g. (count_key g.0.0 g.0.1, length g.1)) (db.unordered groups)

  unfoldable pub first_since : ℕ → List (Alert R) → List (Alert R)
  first_since since rows = filter (λ a. leb since a.first_seen) rows

  -- `timeseries`, its buckets as instants
  unfoldable pub alert_timeseries : ℕ → ℕ → List (Alert R) → List (ℕ × String × ℕ)
  unfolding first_since group_by bucket_of
  alert_timeseries since bucket_seconds rows =
      let groups =
        group_by {K = ℕ × String}
          (λ a. (bucket_of bucket_seconds a.first_seen, severity_value a.severity))
          (first_since since rows) in
      db.order_by (λ r. r.0) (map (λ g. (g.0.0, g.0.1, length g.1)) groups)

  -- `case((status.in_(_ACTIVE_STATUSES), 1), else_=0)`
  unfoldable pub active_unit : Alert R → ℕ
  active_unit a = if is_open_row a then 1 else 0

  unfoldable pub activity_of : List (Alert R) → Activity
  unfolding max_of active_unit
  activity_of alerts = record {
    trigger_count = length alerts;
    active_count = sum_of active_unit alerts;
    last_triggered = max_of (λ a. a.last_seen) alerts;
  }

  -- `rule_activity`
  unfoldable pub rule_activity : List (Alert R) → List (String × Activity)
  unfolding group_by activity_of
  rule_activity rows =
      map (λ g. (g.0, activity_of g.1)) (db.unordered (group_by (λ a. a.rule_id) rows))

  unfoldable pub has_host : Alert R → Bool
  has_host a = elim a.affected_host [ none ↦ false | some host ↦ true ]

  -- `case((severity == "critical", 1), else_=0)`
  unfoldable pub critical_unit : Alert R → ℕ
  critical_unit a = if str_eq (severity_value a.severity) "critical" then 1 else 0

  unfoldable pub affected_row : Option String × List (Alert R) → AffectedHost
  unfolding critical_unit
  affected_row (host, alerts) = record {
    host = host;
    alert_count = length alerts;
    event_count = sum_of (λ a. a.event_count) alerts;
    critical_alerts = sum_of critical_unit alerts;
  }

  -- `affected_hosts`
  unfoldable pub affected_hosts : ℕ → ℕ → List (Alert R) → List AffectedHost
  unfolding first_since has_host group_by affected_row
  affected_hosts since limit rows =
      let groups = group_by (λ a. a.affected_host) (filter has_host (first_since since rows)) in
      take (min limit 50) (db.order_by_desc (λ r. r.alert_count) (map affected_row groups))

  -- `recent_by_kind`
  unfoldable pub recent_by_kind : String → ℕ → List (Alert R) → List (Alert R)
  recent_by_kind kind limit rows = take (min limit max_limit) (
      db.order_by_desc (λ a. a.last_seen)
        (filter (λ a. str_eq (detection_kind_value a.detection_kind) kind) rows))

  -- `severity_heatmap`, its buckets as instants
  unfoldable pub severity_heatmap : ℕ → ℕ → List (Alert R) → List (ℕ × String × ℕ)
  unfolding first_since group_by bucket_of
  severity_heatmap since bucket_seconds rows =
      let groups =
        group_by {K = ℕ × String}
          (λ a. (bucket_of bucket_seconds a.first_seen, severity_value a.severity))
          (first_since since rows) in
      db.order_by (λ r. r.0) (map (λ g. (g.0.0, g.0.1, length g.1)) groups)
