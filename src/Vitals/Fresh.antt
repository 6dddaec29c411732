-- ===== src/Vitals/Fresh.antt =====
-- `dashboard_metrics` of backend/app/services/metrics_service.py: what is shown is recent, and counted.
use real_time_distributed_si.Prelude.{
  ℕ, ◌≡◌, refl, String, Bool, true, false, Option, none, some, List, [], ◌∷◌, All, map, length,
  is_nonempty, if◌then◌else◌, inl, inr, ◌⊎◌,
}
use mathlib.Core.Bool.{false≢true}
use real_time_distributed_si.Floats.{Floats, flt, fsub, of_ℕ}
use real_time_distributed_si.Event.{SecurityEvent}
use real_time_distributed_si.Alert.{Alert}
use real_time_distributed_si.Detection.{Outcome, ok, raised, then_do}
use real_time_distributed_si.Query.{Database}
use real_time_distributed_si.Query.Alerts.{counts_by_status_severity}
use real_time_distributed_si.Dashboard.{alert_counts}
use real_time_distributed_si.Dashboard.Counts.{IsCount, alert_counts_lem}
use real_time_distributed_si.Vitals.{
  Reading, parsed, Hash, hget, Number, num, seen_within, worker_fresh, rolling_fresh, rv,
  rolling_keys, Metrics, Stored, answer, dashboard_metrics,
}

module _ {R : Type 0} ⦃F : Floats R⦄ (reading : Reading R) where
  -- a text that is a time less than so many seconds ago
  abbrev pub IsRecent : ℕ → R → Option String → Type 0
  IsRecent seconds clock seen =
      (s : String) × (x : R) × (seen ≡ some s)
      × (reading.float_of s ≡ some x)
      × (flt (fsub clock x) (of_ℕ seconds) ≡ true)

  -- a verdict that is true for a reason, or an exception for a text that is no number
  abbrev pub Judged : Type 0 → Option String → Outcome Bool → Type 0
  Judged P seen (ok b) = b ≡ true → P
  Judged P seen (raised m) = (s : String) × (seen ≡ some s) × (reading.float_of s ≡ none)

  seen_within-Judged :
      (seconds : ℕ) (clock : R) (s : String)
      → Judged (IsRecent seconds clock (some s)) (some s) (seen_within reading seconds clock s)
  unfolding seen_within
  seen_within-Judged seconds clock s = read (reading.float_of s) refl
    where
      read :
          (o : Option R)
          → reading.float_of s ≡ o
          → Judged
              (IsRecent seconds clock (some s))
              (some s)
              (then_do (parsed o) (λ x. ok (flt (fsub clock x) (of_ℕ seconds))))
      read none e = (s, refl, e)
      read (some x) e = λ recent. (s, x, refl, e, recent)

  worker_fresh-Judged :
      (clock : R) (seen : Option String)
      → Judged (IsRecent 20 clock seen) seen (worker_fresh reading clock seen)
  unfolding worker_fresh
  worker_fresh-Judged clock none = λ h. absurd (false≢true h)
  worker_fresh-Judged clock (some s) = by_text (is_nonempty s)
    where
      by_text :
          (b : Bool)
          → Judged
              (IsRecent 20 clock (some s))
              (some s)
              (if b then seen_within reading 20 clock s else ok false)
      by_text true = seen_within-Judged 20 clock s
      by_text false = λ h. absurd (false≢true h)

  -- a reason with one that is known
  Judged-with :
      (P Q : Type 0) (seen : Option String) (o : Outcome Bool)
      → Q
      → Judged P seen o
      → Judged (Q × P) seen o
  Judged-with P Q seen (ok b) q h = λ e. (q, h e)
  Judged-with P Q seen (raised m) q h = h

  rolling_fresh-Judged :
      (clock : R) (online : Bool) (seen : Option String)
      → Judged
          ((online ≡ true) × IsRecent 30 clock seen)
          seen
          (rolling_fresh reading clock online seen)
  unfolding rolling_fresh
  rolling_fresh-Judged clock false seen = λ h. absurd (false≢true h)
  rolling_fresh-Judged clock true none = λ h. absurd (false≢true h)
  rolling_fresh-Judged clock true (some s) =
      Judged-with _ _ (some s) _ refl (seen_within-Judged 30 clock s)

  -- a value that is shown under a key: for a reason, and the value is that of the hash
  abbrev pub IsShown : Type 0 → Hash → String → Option (Number R) → Type 0
  IsShown P rolling k none = Unit
  IsShown P rolling k (some v) =
      P × ((raw : String) × (hget k rolling ≡ some raw) × (v ≡ num reading raw))

  rv-IsShown :
      (P : Type 0) (fresh : Bool) (rolling : Hash) (k : String)
      → (fresh ≡ true → P)
      → IsShown P rolling k (rv reading fresh rolling k)
  unfolding rv
  rv-IsShown P false rolling k why = tt
  rv-IsShown P true rolling k why = held (hget k rolling) refl
    where
      held :
          (o : Option String)
          → hget k rolling ≡ o
          → IsShown P rolling k (elim o [ none ↦ none | some v ↦ some (num reading v) ])
      held none e = tt
      held (some raw) e = (why refl, (raw, e, refl))

  abbrev pub AllShown : Type 0 → Hash → List (String × Option (Number R)) → Type 0
  AllShown P rolling values =
      All (λ (e : String × Option (Number R)). IsShown P rolling e.0 e.1) values

  rolling_values-AllShown :
      (P : Type 0) (fresh : Bool) (rolling : Hash) (keys : List String)
      → (fresh ≡ true → P)
      → AllShown P rolling (map (λ k. (k, rv reading fresh rolling k)) keys)
  rolling_values-AllShown P fresh rolling [] why = tt
  rolling_values-AllShown P fresh rolling (k ∷ keys) why =
      (rv-IsShown P fresh rolling k why, rolling_values-AllShown P fresh rolling keys why)

module _ {R : Type 0} ⦃F : Floats R⦄ ⦃db : Database⦄ (reading : Reading R) where
  -- what an answer says: online for a heartbeat within 20 seconds, rolling values from the hash for
  -- an update within 30 seconds beside that, and counts of all alerts
  abbrev pub IsAnswer : R → R → Stored → List (Alert R) → Outcome (Metrics R) → Type 0
  IsAnswer clock clock' stored alerts (ok m) =
      (m.worker_online ≡ true → IsRecent reading 20 clock stored.worker_seen)
      × AllShown reading
          (IsRecent reading 20 clock stored.worker_seen
            × IsRecent reading 30 clock' (hget "updated_at" stored.rolling))
          stored.rolling m.rolling_values
      × IsCount alerts m.counts
      × (m.total_alerts ≡ length alerts)
  IsAnswer clock clock' stored alerts (raised m) =
      (s : String) × (reading.float_of s ≡ none)
      × ((stored.worker_seen ≡ some s) ⊎ (hget "updated_at" stored.rolling ≡ some s))

  -- the steps behind the two tests of freshness
  counted-IsAnswer :
      (now : ℕ) (clock clock' : R) (stored : Stored) (events : List (SecurityEvent R))
      (alerts : List (Alert R)) (online fresh : Bool)
      → (online ≡ true → IsRecent reading 20 clock stored.worker_seen)
      → (fresh ≡ true
          → (online ≡ true) × IsRecent reading 30 clock' (hget "updated_at" stored.rolling))
      → IsAnswer clock clock' stored alerts (
          then_do
            (parsed (alert_counts (counts_by_status_severity alerts)))
            (λ c. ok (answer reading now online fresh stored events c)))
  unfolding answer
  counted-IsAnswer now clock clock' stored events alerts online fresh seen updated =
      let (t, e, counts) = alert_counts_lem alerts in
      rw e (
        seen,
        rolling_values-AllShown reading _ fresh stored.rolling rolling_keys
            (λ h. (seen (updated h).0, (updated h).1)),
        counts,
        refl,
      )

  fresh-IsAnswer :
      (now : ℕ) (clock clock' : R) (stored : Stored) (events : List (SecurityEvent R))
      (alerts : List (Alert R)) (online : Bool)
      → (online ≡ true → IsRecent reading 20 clock stored.worker_seen)
      → (o : Outcome Bool)
      → Judged reading
          ((online ≡ true) × IsRecent reading 30 clock' (hget "updated_at" stored.rolling))
          (hget "updated_at" stored.rolling)
          o
      → IsAnswer clock clock' stored alerts (
          then_do o (λ fresh.
            then_do
              (parsed (alert_counts (counts_by_status_severity alerts)))
              (λ c. ok (answer reading now online fresh stored events c))))
  fresh-IsAnswer now clock clock' stored events alerts online seen (ok fresh) h =
      counted-IsAnswer now clock clock' stored events alerts online fresh seen h
  fresh-IsAnswer now clock clock' stored events alerts online seen (raised m) (s, at, bad) =
      (s, bad, inr at)

  online-IsAnswer :
      (now : ℕ) (clock clock' : R) (stored : Stored) (events : List (SecurityEvent R))
      (alerts : List (Alert R)) (o : Outcome Bool)
      → Judged reading (IsRecent reading 20 clock stored.worker_seen) stored.worker_seen o
      → IsAnswer clock clock' stored alerts (
          then_do o (λ online.
            then_do
              (rolling_fresh reading clock' online (hget "updated_at" stored.rolling))
              (λ fresh.
                then_do
                  (parsed (alert_counts (counts_by_status_severity alerts)))
                  (λ c. ok (answer reading now online fresh stored events c)))))
  online-IsAnswer now clock clock' stored events alerts (ok online) seen =
      fresh-IsAnswer now clock clock' stored events alerts online seen _
        (rolling_fresh-Judged reading clock' online (hget "updated_at" stored.rolling))
  online-IsAnswer now clock clock' stored events alerts (raised m) (s, at, bad) = (s, bad, inl at)

  -- The dashboard calls the worker online only for a heartbeat within 20 seconds, and shows a rolling
  -- value only where, beside that, the values were updated within 30 seconds, and then the stored one
  -- under its key; its counts are those of the alerts, and their total is the number of all alerts. It
  -- raises an exception only where one of these two times is stored as a text that is no number.
  pub dashboard_metrics_lem :
      (now : ℕ) (clock clock' : R) (stored : Stored) (events : List (SecurityEvent R))
      (alerts : List (Alert R))
      → IsAnswer clock clock' stored alerts
          (dashboard_metrics reading now clock clock' stored events alerts)
  unfolding dashboard_metrics
  dashboard_metrics_lem now clock clock' stored events alerts =
      online-IsAnswer now clock clock' stored events alerts _
        (worker_fresh-Judged reading clock stored.worker_seen)
