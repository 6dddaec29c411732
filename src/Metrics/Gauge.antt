-- ===== src/Metrics/Gauge.antt =====
-- backend/app/streaming/pipeline.py: `refresh_active_alert_gauge`, against `AlertStatus.is_active`.
use real_time_distributed_si.Prelude.{
  ℕ, ◌+◌, ◌≡◌, refl, sym, ap, ◌∙◌, String, Bool, Option, some, List, [], ◌∷◌, ◌&&◌, ◌>>=◌, arith,
  if◌then◌else◌, str_eq, eq_iff, str, mem, map, length, filter, fmt, contains,
}
use real_time_distributed_si.Enums.{
  Severity, AlertStatus, opened, acknowledged, investigating, is_active, severity_value,
  alert_status_value,
}
use real_time_distributed_si.Alert.{Alert, same_status}
use real_time_distributed_si.Dashboard.{split_key}
use real_time_distributed_si.Query.{Database, group_by}
use real_time_distributed_si.Query.Sums.{sum_of}
use real_time_distributed_si.Query.Perms.{sum_of-perm}
use real_time_distributed_si.Query.Groups.{sum_of-counts}
use real_time_distributed_si.Query.Keys.{status_key, severity_key, pair_key}
use real_time_distributed_si.Query.Alerts.{count_key, counts_by_status_severity}

-- `Counter[str]`
abbrev pub Counter : Type 0
Counter = List (String × ℕ)

-- `active.get(k, 0)`
unfoldable pub count_at : String → Counter → ℕ
count_at k [] = 0
count_at k ((j, n) ∷ c) = if str_eq j k then n else count_at k c

-- `active[k] += n`
unfoldable pub bump : String → ℕ → Counter → Counter
bump k n [] = (k, n) ∷ []
bump k n ((j, m) ∷ c) = if str_eq j k then (j, m + n) ∷ c else (j, m) ∷ bump k n c

-- `status in {AlertStatus.OPEN, AlertStatus.ACKNOWLEDGED}`
unfoldable pub is_gauged : String → Bool
unfolding mem
is_gauged status = mem status (alert_status_value opened ∷ alert_status_value acknowledged ∷ [])

-- the loop over the counts; none for a ValueError
unfoldable pub gauge_counts : List (String × ℕ) → Counter → Option Counter
unfolding split_key is_gauged bump
gauge_counts [] c = some c
gauge_counts ((key, n) ∷ entries) c = do
  parts ← split_key key
  gauge_counts entries (if is_gauged parts.0 then bump parts.1 n c else c)

-- the labels of the gauge, and the hash that is written to Redis
pub record Gauges : Type 0 where
  pub labels : Counter
  pub mapping : List (String × String)

abbrev mapping_of : Counter → List (String × String)
mapping_of [] = ("none", "0") ∷ []
mapping_of ((k, n) ∷ c) = map (λ (e : String × ℕ). (e.0, str e.1)) ((k, n) ∷ c)

unfoldable pub gauges_of : Counter → Gauges
unfolding count_at
gauges_of c = record {
  labels =
      map (λ (s : String). (s, count_at s c))
        ("info" ∷ "low" ∷ "medium" ∷ "high" ∷ "critical" ∷ []);
  mapping = mapping_of c;
}

-- `refresh_active_alert_gauge`
unfoldable pub refresh_active_alert_gauge :
    {R : Type 0} ⦃db : Database⦄ → List (Alert R) → Option Gauges
unfolding gauge_counts gauges_of counts_by_status_severity
refresh_active_alert_gauge rows = do
  active ← gauge_counts (counts_by_status_severity rows) []
  some (gauges_of active)

abbrev pub of_severity : {R : Type 0} → Severity → Alert R → Bool
of_severity sev a = str_eq (severity_value a.severity) (severity_value sev)

count_at-bump :
    (k j : String) (n : ℕ) (c : Counter)
    → count_at k (bump j n c) ≡ count_at k c + (if str_eq j k then n else 0)
unfolding count_at bump
count_at-bump k j n [] = ground arith
count_at-bump k j n ((i, m) ∷ c) =
    ground (arith, count_at-bump k j n c, eq_iff i j, eq_iff i k, eq_iff j k)

-- the key that the repository writes is split into its parts
split_key-count_key :
    (st : AlertStatus) (sev : Severity)
    → split_key (count_key st sev) ≡ some (alert_status_value st, severity_value sev)
unfolding split_key count_key fmt alert_status_value severity_value contains
split_key-count_key AlertStatus.opened Severity.info = refl
split_key-count_key AlertStatus.opened _ = refl
split_key-count_key AlertStatus.acknowledged Severity.info = refl
split_key-count_key AlertStatus.acknowledged _ = refl
split_key-count_key AlertStatus.investigating Severity.info = refl
split_key-count_key AlertStatus.investigating _ = refl
split_key-count_key AlertStatus.resolved Severity.info = refl
split_key-count_key AlertStatus.resolved _ = refl
split_key-count_key AlertStatus.false_positive Severity.info = refl
split_key-count_key AlertStatus.false_positive _ = refl

-- the groups that a label counts
abbrev on_label : String → AlertStatus × Severity → Bool
on_label k p = is_gauged (alert_status_value p.0) && str_eq (severity_value p.1) k

module _ {A : Type 0} where
  abbrev written_group : (AlertStatus × Severity) × List A → String × ℕ
  written_group g = (count_key g.0.0 g.0.1, length g.1)

  abbrev share : String → (AlertStatus × Severity) × List A → ℕ
  share k g = if on_label k g.0 then length g.1 else 0

  gauge_counts-written :
      (groups : List ((AlertStatus × Severity) × List A)) (c : Counter)
      → (c' : Counter) × (gauge_counts (map written_group groups) c ≡ some c')
        × ((k : String) → count_at k c' ≡ count_at k c + sum_of (share k) groups)
  unfolding gauge_counts sum_of
  gauge_counts-written [] c = (c, refl, λ k. omega arith)
  gauge_counts-written (((st, sev), xs) ∷ groups) c =
      let n = length xs in
      let on = is_gauged (alert_status_value st) in
      let counted : Counter = if on then bump (severity_value sev) n c else c in
      let (c', e, h) = gauge_counts-written groups counted in
      (
        c',
        rw (split_key-count_key st sev) e,
        λ k. ground (arith, h k, count_at-bump k (severity_value sev) n c),
      )

-- the labels are those of the severities
labels-at :
    (sev : Severity) (c : Counter)
    → count_at (severity_value sev) (gauges_of c).labels ≡ count_at (severity_value sev) c
unfolding gauges_of count_at severity_value
labels-at Severity.info c = refl
labels-at Severity.low c = refl
labels-at Severity.medium c = refl
labels-at Severity.high c = refl
labels-at Severity.critical c = refl

counted_status :
    (st : AlertStatus) (b : Bool)
    → (if is_active st && b then 1 else 0)
      ≡ (if is_gauged (alert_status_value st) && b then 1 else 0)
        + (if same_status st investigating && b then 1 else 0)
unfolding is_active same_status is_gauged
counted_status AlertStatus.opened b = ground arith
counted_status AlertStatus.acknowledged b = ground arith
counted_status AlertStatus.investigating b = ground arith
counted_status AlertStatus.resolved b = ground arith
counted_status AlertStatus.false_positive b = ground arith

module _ {R : Type 0} (sev : Severity) where
  missing :
      (rows : List (Alert R))
      → length (filter (λ a. is_active a.status && of_severity sev a) rows)
        ≡ length (filter (λ a. on_label (severity_value sev) (a.status, a.severity)) rows)
          + length (filter (λ a. same_status a.status investigating && of_severity sev a) rows)
  unfolding filter
  missing [] = refl
  missing (a ∷ rows) = ground (arith, missing rows, counted_status a.status (of_severity sev a))

-- The refresh of the gauge reads the counts of the repository without a ValueError, in whatever order
-- they come. The label of each severity then falls short of the number of active alerts of that
-- severity by exactly those that are under investigation.
pub active_gauge_lem :
    {R : Type 0} ⦃db : Database⦄ (rows : List (Alert R))
    → (g : Gauges) × (refresh_active_alert_gauge rows ≡ some g)
      × ((sev : Severity)
          → length (filter (λ a. is_active a.status && of_severity sev a) rows)
            ≡ count_at (severity_value sev) g.labels
              + length (filter (λ a. same_status a.status investigating && of_severity sev a) rows))
unfolding refresh_active_alert_gauge counts_by_status_severity count_at
active_gauge_lem {R} ⦃db⦄ rows =
    let columns : Alert R → AlertStatus × Severity = λ a. (a.status, a.severity) in
    let groups = db.unordered (group_by columns rows) in
    let (c, e, h) = gauge_counts-written groups [] in
    (
      gauges_of c,
      rw e refl,
      λ sev.
          let k = severity_value sev in
          let on : sum_of (share k) groups ≡ length (filter (λ a. on_label k (columns a)) rows) =
            sum_of-perm _ (db.unordered-perm (group_by columns rows))
            ∙ sum_of-counts columns (on_label k) rows in
          let total : count_at k c ≡ length (filter (λ a. on_label k (columns a)) rows) =
            omega (arith, h k, on) in
          missing sev rows
          ∙ ap
              (λ n.
                n
                + length
                    (filter (λ a. same_status a.status investigating && of_severity sev a) rows))
              (sym (labels-at sev c ∙ total)),
    )
