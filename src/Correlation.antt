-- ===== src/Correlation.antt =====
-- backend/app/detection/correlation.py: folding detections into one alert per rule and key. The
-- caller flushes after each call, so `apply` includes the flush of the row that it changed.
pub mod Total
pub mod Fold
use real_time_distributed_si.Prelude.{
  ℕ, ◌+◌, ◌<◌, String, Bool, true, false, Option, none, some, List, [], ◌∷◌, ◌++◌, if◌then◌else◌,
  ltb, max, take, take_last, filter, any, unique, sorted, is_nonempty,
}
use real_time_distributed_si.Floats.{Floats, of_ℕ, fmax}
use real_time_distributed_si.Enums.{Severity, opened, rank}
use real_time_distributed_si.Value.{update}
use real_time_distributed_si.Detection.{Detection, Evidence, same_evidence}
use real_time_distributed_si.Alert.{Alert, Session, get_open_by_key, insert_row, update_row}

abbrev pub max_evidence : ℕ
max_evidence = 25

abbrev pub max_involved : ℕ
max_involved = 50

abbrev pub or_now : Option ℕ → ℕ → ℕ
or_now none now = now
or_now (some t) now = t

-- `evidence` with each new item that it does not hold yet
unfoldable pub merge_evidence : List Evidence → List Evidence → List Evidence
merge_evidence old [] = old
merge_evidence old (x ∷ xs) =
    merge_evidence (if any (same_evidence x) old then old else old ++ x ∷ []) xs

-- `sorted(set(a) | set(b))[:_MAX_INVOLVED]`
unfoldable pub merge_involved : List String → List String → List String
merge_involved a b = take max_involved (sorted (unique (a ++ b)))

-- what a call returns beside the table: the alert and whether it is new
pub record Applied (R : Type 0) : Type 0 where
  pub alert : Alert R
  pub created : Bool
  pub rows : List (Alert R)

module _ {R : Type 0} ⦃F : Floats R⦄ where
  unfoldable pub merge_score : Option R → Option R → Option R
  merge_score old none = old
  merge_score none (some x) = some (fmax (of_ℕ 0) x)
  merge_score (some y) (some x) = some (fmax y x)

  -- the alert of a first detection
  unfoldable pub create : String → ℕ → Detection R → Alert R
  create alert_id now d = record {
    alert_id = alert_id;
    rule_id = d.rule_id;
    detection_kind = d.kind;
    title = d.title;
    description = d.description;
    severity = d.severity;
    confidence = d.confidence;
    status = opened;
    first_seen = now;
    last_seen = now;
    source_ip = d.source_ip;
    affected_host = d.affected_host;
    event_count = max 1 d.event_count_hint;
    involved_users = take max_involved d.involved_users;
    involved_hosts = take max_involved d.involved_hosts;
    evidence = take max_evidence d.evidence;
    recommended_action = d.recommended_action;
    correlation_key = d.correlation_key;
    anomaly_score = d.anomaly_score;
    alert_metadata = d.metadata;
    created_at = now;
    updated_at = now;
  }

  -- `Severity(detection.severity).rank > Severity(existing.severity).rank`
  unfoldable pub is_worse : Detection R → Alert R → Bool
  is_worse d a = ltb (rank a.severity) (rank d.severity)

  -- the alert after a further detection; the clock of the database, which `updated_at` has, is `now` too
  unfoldable pub fold : ℕ → Detection R → Alert R → Alert R
  unfolding is_worse
  fold now d a = record a {
    last_seen = now;
    event_count = max (a.event_count + 1) d.event_count_hint;
    confidence = fmax a.confidence d.confidence;
    severity = if is_worse d a then d.severity else a.severity;
    title = if is_worse d a then d.title else a.title;
    description = if is_worse d a then d.description else a.description;
    involved_users = merge_involved a.involved_users d.involved_users;
    involved_hosts = merge_involved a.involved_hosts (filter is_nonempty d.involved_hosts);
    evidence = take_last max_evidence (merge_evidence a.evidence d.evidence);
    alert_metadata = update a.alert_metadata d.metadata;
    anomaly_score = merge_score a.anomaly_score d.anomaly_score;
    updated_at = now;
  }

  abbrev pub applied : Alert R → Bool → Option (List (Alert R)) → Option (Applied R)
  applied a created none = none
  applied a created (some rows) = some (record { alert = a; created = created; rows = rows })

  -- the two ways on from the query
  abbrev pub settle :
      String → ℕ → Detection R → List (Alert R) → Option (Alert R) → Option (Applied R)
  settle alert_id now d rows none =
      applied (create alert_id now d) true (insert_row (create alert_id now d) rows)
  settle alert_id now d rows (some old) =
      applied (fold now d old) false (update_row (fold now d old) rows)

  -- `apply`: `alert_id` is the UUID that a new row would get; none for the IntegrityError of a flush
  unfoldable pub apply :
      ⦃q : Session R⦄ → String → ℕ → Detection R → List (Alert R) → Option (Applied R)
  unfolding fold create
  apply alert_id wall d rows =
      settle alert_id (or_now d.triggered_at wall) d rows
        (get_open_by_key d.rule_id d.correlation_key rows)
