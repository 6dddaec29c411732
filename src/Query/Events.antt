-- ===== src/Query/Events.antt =====
-- The queries of `EventRepository` in backend/app/storage/repositories.py on the rows of the table of
-- events. A caller of a query with a plain LIMIT gives it a natural number.
use real_time_distributed_si.Prelude.{
  ℕ, ◌+◌, ◌-◌, ◌*◌, ◌/◌, String, Bool, true, false, Option, none, some, List, [], ◌∷◌, ℤ, ◌||◌,
  if◌then◌else◌, leb, str_eq, fmt, filter, length, take, min, map,
}
use real_time_distributed_si.Enums.{severity_value, event_type_value, source_type_value}
use real_time_distributed_si.Event.{SecurityEvent, microseconds}
use real_time_distributed_si.Query.{Database, max_limit, paginate, where_if, where_at, group_by}
use real_time_distributed_si.Query.Keys.{text_key, optional_key, instant_key, pair_key}
use real_time_distributed_si.Query.Sums.{sum_of}

-- the keyword arguments of `_filtered`
pub record Filters : Type 0 where
  pub event_type : Option String
  pub source_ip : Option String
  pub severity : Option String
  pub source : Option String
  pub username : Option String
  pub start : Option ℕ
  pub end : Option ℕ
  pub q : Option String

-- `column == value`, where the column may be NULL
unfoldable pub column_is : String → Option String → Bool
column_is value none = false
column_is value (some s) = str_eq s value

-- `column ILIKE pattern`, where the column may be NULL
unfoldable pub column_like : ⦃db : Database⦄ → String → Option String → Bool
column_like pattern none = false
column_like ⦃db⦄ pattern (some s) = db.ilike s pattern

-- 1970-01-01, the start of `extract(epoch ...)`
abbrev pub epoch : ℕ
epoch = 62135596800 * microseconds

-- `to_timestamp(floor(extract(epoch ...) / n) * n)`, before 1970 too
unfoldable pub bucket_of : ℕ → ℕ → ℕ
bucket_of bucket_seconds t =
    let width = bucket_seconds * microseconds in
    if leb epoch t
    then epoch + ((t - epoch) / width) * width
    else epoch - ((((epoch - t) + width) - 1) / width) * width

pub record SourceIpRow : Type 0 where
  pub source_ip : Option String
  pub event_count : ℕ
  pub auth_failures : ℕ

pub record HostRow : Type 0 where
  pub host : String
  pub source_type : String
  pub event_count : ℕ
  pub high_severity_events : ℕ

module _ {R : Type 0} ⦃db : Database⦄ where
  -- the conditions of `_filtered`
  abbrev pub type_is : String → SecurityEvent R → Bool
  type_is s e = str_eq (event_type_value e.event_type) s

  abbrev pub ip_is : String → SecurityEvent R → Bool
  ip_is s e = column_is s e.source_ip

  abbrev pub severity_is : String → SecurityEvent R → Bool
  severity_is s e = str_eq (severity_value e.severity) s

  abbrev pub source_is : String → SecurityEvent R → Bool
  source_is s e = str_eq e.source s

  abbrev pub user_is : String → SecurityEvent R → Bool
  user_is s e = column_is s e.username

  abbrev pub from_at : ℕ → SecurityEvent R → Bool
  from_at t e = leb t e.timestamp

  abbrev pub until_at : ℕ → SecurityEvent R → Bool
  until_at t e = leb e.timestamp t

  abbrev pub message_has : String → SecurityEvent R → Bool
  message_has s e = column_like (fmt ("%" ∷ s ∷ "%" ∷ [])) e.message

  -- `_filtered`
  unfoldable pub filtered : Filters → List (SecurityEvent R) → List (SecurityEvent R)
  unfolding where_if where_at column_is column_like
  filtered f rows =
      let rows = where_if f.event_type type_is rows in
      let rows = where_if f.source_ip ip_is rows in
      let rows = where_if f.severity severity_is rows in
      let rows = where_if f.source source_is rows in
      let rows = where_if f.username user_is rows in
      let rows = where_at f.start from_at rows in
      let rows = where_at f.end until_at rows in where_if f.q message_has rows

  -- `search`
  unfoldable pub search_events :
      ℤ → ℤ → Filters → List (SecurityEvent R) → List (SecurityEvent R) × ℕ
  unfolding paginate filtered
  search_events limit offset f rows =
      let base = filtered f rows in
      (paginate limit offset (db.order_by_desc (λ e. e.timestamp) base), length base)

  -- `recent_for_ip`
  unfoldable pub recent_for_ip : String → ℕ → List (SecurityEvent R) → List (SecurityEvent R)
  unfolding column_is
  recent_for_ip ip limit rows =
      take (min limit max_limit)
        (db.order_by_desc (λ e. e.timestamp) (filter (λ e. column_is ip e.source_ip) rows))

  unfoldable pub since_rows : ℕ → List (SecurityEvent R) → List (SecurityEvent R)
  since_rows since rows = filter (λ e. leb since e.timestamp) rows

  -- `count_since`
  unfoldable pub count_since : ℕ → List (SecurityEvent R) → ℕ
  count_since since rows = length (filter (λ e. leb since e.ingested_at) rows)

  -- `case((event_type == "authentication_failure", 1), else_=0)`
  unfoldable pub is_failure : SecurityEvent R → ℕ
  is_failure e = if str_eq (event_type_value e.event_type) "authentication_failure" then 1 else 0

  -- `source_ip.is_not(None)`
  unfoldable pub has_ip : SecurityEvent R → Bool
  has_ip e = elim e.source_ip [ none ↦ false | some ip ↦ true ]

  unfoldable pub source_ip_row : Option String × List (SecurityEvent R) → SourceIpRow
  unfolding is_failure
  source_ip_row (ip, es) = record {
    source_ip = ip;
    event_count = length es;
    auth_failures = sum_of is_failure es;
  }

  -- `top_source_ips`
  unfoldable pub top_source_ips : ℕ → ℕ → List (SecurityEvent R) → List SourceIpRow
  unfolding since_rows has_ip group_by source_ip_row
  top_source_ips since limit rows =
      let groups = group_by (λ e. e.source_ip) (filter has_ip (since_rows since rows)) in
      take (min limit 50) (db.order_by_desc (λ r. r.event_count) (map source_ip_row groups))

  -- `event_type_breakdown`
  unfoldable pub event_type_breakdown : ℕ → List (SecurityEvent R) → List (String × ℕ)
  unfolding since_rows group_by
  event_type_breakdown since rows =
      let groups = group_by (λ e. event_type_value e.event_type) (since_rows since rows) in
      db.order_by_desc (λ r. r.1) (map (λ g. (g.0, length g.1)) groups)

  -- `timeseries`, its buckets as instants
  unfoldable pub event_timeseries : ℕ → ℕ → List (SecurityEvent R) → List (ℕ × ℕ)
  unfolding since_rows group_by bucket_of
  event_timeseries since bucket_seconds rows =
      let groups = group_by (λ e. bucket_of bucket_seconds e.timestamp) (since_rows since rows) in
      db.order_by (λ r. r.0) (map (λ g. (g.0, length g.1)) groups)

  -- `case((severity.in_(("high", "critical")), 1), else_=0)`
  unfoldable pub is_high : SecurityEvent R → ℕ
  is_high e =
      if str_eq (severity_value e.severity) "high" || str_eq (severity_value e.severity) "critical"
      then 1
      else 0

  unfoldable pub host_row : (String × String) × List (SecurityEvent R) → HostRow
  unfolding is_high
  host_row ((host, source_type), es) = record {
    host = host;
    source_type = source_type;
    event_count = length es;
    high_severity_events = sum_of is_high es;
  }

  -- `top_hosts`
  unfoldable pub top_hosts : ℕ → ℕ → List (SecurityEvent R) → List HostRow
  unfolding since_rows group_by host_row
  top_hosts since limit rows =
      let groups =
        group_by (λ e. (e.source, source_type_value e.source_type)) (since_rows since rows) in
      take (min limit 50) (db.order_by_desc (λ r. r.event_count) (map host_row groups))

  -- `severity_breakdown`
  unfoldable pub severity_breakdown : ℕ → List (SecurityEvent R) → List (String × ℕ)
  unfolding since_rows group_by
  severity_breakdown since rows =
      let groups = group_by (λ e. severity_value e.severity) (since_rows since rows) in
      db.unordered (map (λ g. (g.0, length g.1)) groups)
