-- ===== src/Vitals.antt =====
-- backend/app/services/metrics_service.py and backend/app/api/routes/system.py: which of the values that the
-- worker leaves in Redis are shown. The hashes of Redis hold texts; `float` of a text is a parameter.
pub mod Fresh
use real_time_distributed_si.Prelude.{
  ℕ, ◌-◌, ◌*◌, ◌==◌, ℤ, pos, String, Bool, true, false, not, Option, none, some, List, [], ◌∷◌,
  ◌&&◌, if◌then◌else◌, str_eq, filter, map, is_nonempty,
}
use real_time_distributed_si.Floats.{Floats, flt, fsub, fdiv, dec, of_ℕ, round}
use real_time_distributed_si.Event.{SecurityEvent, microseconds}
use real_time_distributed_si.Alert.{Alert}
use real_time_distributed_si.Detection.{Outcome, ok, raised, then_do}
use real_time_distributed_si.Query.{Database}
use real_time_distributed_si.Query.Events.{count_since}
use real_time_distributed_si.Query.Alerts.{counts_by_status_severity}
use real_time_distributed_si.Dashboard.{Tally, alert_counts}

-- `float` of a text, none for the ValueError, and `is_integer` of a float
pub record Reading (R : Type 0) : Type 0 where
  pub float_of : String → Option R
  pub is_integer : R → Bool

-- a hash of Redis
abbrev pub Hash : Type 0
Hash = List (String × String)

unfoldable pub hget : String → Hash → Option String
hget k [] = none
hget k ((j, v) ∷ entries) = if str_eq j k then some v else hget k entries

-- a Python number
pub data Number (R : Type 0) : Type 0 where
  whole : ℤ → Number R
  fraction : R → Number R

abbrev pub parsed : {R : Type 0} → Option R → Outcome R
parsed none = raised "ValueError"
parsed (some x) = ok x

module _ {R : Type 0} ⦃F : Floats R⦄ (reading : Reading R) where
  -- `_num`
  unfoldable pub num : String → Number R
  num v = elim (reading.float_of v) [
    | none ↦ whole (pos 0)
    | some x ↦ if reading.is_integer x then whole (F.trunc x) else fraction x
  ]

  -- `float(seen)`, and a test that it is less than so many seconds ago
  unfoldable pub seen_within : ℕ → R → String → Outcome Bool
  seen_within seconds clock seen =
      then_do (parsed (reading.float_of seen)) (λ x. ok (flt (fsub clock x) (of_ℕ seconds)))

  -- `worker_fresh`
  unfoldable pub worker_fresh : R → Option String → Outcome Bool
  unfolding seen_within
  worker_fresh clock none = ok false
  worker_fresh clock (some seen) = if is_nonempty seen then seen_within 20 clock seen else ok false

  -- `rolling_fresh`, for the `updated_at` of the hash
  unfoldable pub rolling_fresh : R → Bool → Option String → Outcome Bool
  unfolding seen_within
  rolling_fresh clock false updated_at = ok false
  rolling_fresh clock true none = ok false
  rolling_fresh clock true (some seen) = seen_within 30 clock seen

  -- `rv`
  unfoldable pub rv : Bool → Hash → String → Option (Number R)
  unfolding num
  rv fresh rolling k =
      if fresh then elim (hget k rolling) [ none ↦ none | some v ↦ some (num v) ] else none

-- the rolling values of `dashboard_metrics`
abbrev pub rolling_keys : List String
rolling_keys =
    "events_per_second" ∷ "events_processed_per_second" ∷ "pipeline_latency_ms"
    ∷ "detection_latency_ms" ∷ "alerts_per_minute" ∷ "pipeline_health_pct" ∷ "invalid_events_window"
    ∷ "duplicate_events_window" ∷ []

-- what `dashboard_metrics` answers
pub record Metrics (R : Type 0) : Type 0 where
  pub worker_online : Bool
  pub rolling_values : List (String × Option (Number R))
  pub consumer_lag : Option (Number R)
  pub events_last_hour : ℕ
  pub events_last_24h : ℕ
  pub last_minute : List (String × Number R)
  pub counts : Tally
  pub total_alerts : ℕ
  pub detection_rate : R
  pub false_positive_rate : R

-- what Redis holds when the dashboard is asked for
pub record Stored : Type 0 where
  pub rolling : Hash
  pub last_minute : Hash
  pub worker_seen : Option String
  pub lag_raw : Hash

module _ {R : Type 0} ⦃F : Floats R⦄ ⦃db : Database⦄ (reading : Reading R) where
  -- `round(a / b, k) if b else 0.0`
  unfoldable pub rate : ℕ → ℕ → ℕ → R
  rate a b k = if b == 0 then dec 0 1 else round (fdiv (of_ℕ a) (of_ℕ b)) k

  -- the answer, for counts of alerts
  unfoldable pub answer : ℕ → Bool → Bool → Stored → List (SecurityEvent R) → Tally × ℕ → Metrics R
  unfolding num rv hget count_since rate
  answer now online fresh stored events (counts, total) =
      let day = count_since (now - 86400 * microseconds) events in
      record {
        worker_online = online;
        rolling_values = map (λ k. (k, rv reading fresh stored.rolling k)) rolling_keys;
        consumer_lag = elim (hget "lag" stored.lag_raw) [
          | none ↦ none
          | some v ↦ some (num reading v)
        ];
        events_last_hour = count_since (now - 3600 * microseconds) events;
        events_last_24h = day;
        last_minute =
            map (λ e. (e.0, num reading e.1))
              (filter (λ e. not (str_eq e.0 "minute")) stored.last_minute);
        counts = counts;
        total_alerts = total;
        detection_rate = rate total day 5;
        false_positive_rate = rate counts.false_positives total 3;
      }

  -- `dashboard_metrics`, at `now`, with the two readings of the clock
  unfoldable pub dashboard_metrics :
      ℕ → R → R → Stored → List (SecurityEvent R) → List (Alert R) → Outcome (Metrics R)
  unfolding worker_fresh rolling_fresh hget
  dashboard_metrics now clock clock' stored events alerts =
      then_do (worker_fresh reading clock stored.worker_seen) (λ online.
        then_do (rolling_fresh reading clock' online (hget "updated_at" stored.rolling)) (λ fresh.
          then_do (parsed (alert_counts (counts_by_status_severity alerts)))
            (λ c. ok (answer now online fresh stored events c))))

-- `_f` of `system_status`: a rolling value that is a number
unfoldable pub rounded_value : {R : Type 0} ⦃F : Floats R⦄ → Reading R → Hash → String → Option R
unfolding hget
rounded_value reading rolling k = elim (hget k rolling) [
  | none ↦ none
  | some v ↦ elim (reading.float_of v) [ none ↦ none | some x ↦ some (round x 3) ]
]

-- the status of the whole system
unfoldable pub overall : Bool → Bool → Bool → Bool → String
overall postgres redis broker worker =
    let core = postgres && (redis && broker) in
    if core && worker then "healthy" else if core then "degraded" else "down"
