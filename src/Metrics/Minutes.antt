-- ===== src/Metrics/Minutes.antt =====
-- backend/app/streaming/pipeline.py: what the counters of a minute hold, and where the events of the
-- batch at a rollover go.
use real_time_distributed_si.Prelude.{
  ℕ, ◌+◌, ◌≤◌, true, false, ◌≡◌, refl, ap, ◌∙◌, List, [], ◌∷◌, arith, length, filter, ◌==◌,
  length-take-le, Bool-cases, inl, inr, sym, Bool, String, Option, none, some, mem, any, ◌||◌, ◌&&◌,
  str_eq, eq_iff, is_nonempty, if◌then◌else◌,
}
use mathlib.Core.Path.{subst}
use real_time_distributed_si.Floats.{Floats, flt, of_ℕ}
use real_time_distributed_si.Event.{SecurityEvent}
use real_time_distributed_si.Settings.{Settings}
use real_time_distributed_si.Detection.{Outcome, ok, raised, truthy}
use real_time_distributed_si.Alert.{Session}
use real_time_distributed_si.Pipeline.{Pipeline}
use real_time_distributed_si.Metrics.{
  Minute, Feed, fresh_minute, count_event, count_events, has_type, add_ip,
}
use real_time_distributed_si.Metrics.Flush.{features}
use real_time_distributed_si.Metrics.Update.{Ticks, update_metrics, roll, roll_over, next_minute}

abbrev pub is_ip : String → Option String → Bool
is_ip ip none = false
is_ip ip (some s) = is_nonempty s && str_eq s ip

joined_ips :
    (ip : String) (o : Option String) (ips : List String)
    → mem ip (if truthy o then add_ip o ips else ips) ≡ (is_ip ip o || mem ip ips)
unfolding mem
joined_ips ip none ips = refl
joined_ips ip (some s) ips = ground (arith, eq_iff s ip)

module _ {R : Type 0} where
  unfoldable pub bytes_of_events : List (SecurityEvent R) → ℕ
  bytes_of_events [] = 0
  bytes_of_events (e ∷ events) = e.bytes_out + bytes_of_events events

  -- `m'` has the counts of `m` and those of the events: their number, those of each of the three types
  -- that are watched, the bytes that they sent, and their addresses
  pub record Adds (events : List (SecurityEvent R)) (m m' : Minute) : Type 0 where
    pub all : m'.events ≡ m.events + length events
    pub auth_failures :
        m'.auth_failures
        ≡ m.auth_failures + length (filter (has_type "authentication_failure") events)
    pub db_errors : m'.db_errors ≡ m.db_errors + length (filter (has_type "db_error") events)
    pub firewall_denies :
        m'.firewall_denies ≡ m.firewall_denies + length (filter (has_type "firewall_deny") events)
    pub bytes : m'.bytes_out ≡ m.bytes_out + bytes_of_events events
    pub addresses :
        (ip : String) → mem ip m'.ips ≡ (any (λ e. is_ip ip e.source_ip) events || mem ip m.ips)
    pub bucket : m'.bucket ≡ m.bucket

  count_events-Adds :
      (events : List (SecurityEvent R)) (m : Minute) → Adds events m (count_events events m)
  unfolding count_events count_event filter bytes_of_events any
  count_events-Adds [] m = record {
    all = omega arith;
    auth_failures = omega arith;
    db_errors = omega arith;
    firewall_denies = omega arith;
    bytes = omega arith;
    addresses = λ ip. refl;
    bucket = refl;
  }
  count_events-Adds (e ∷ events) m =
      let h = count_events-Adds events (count_event e m) in
      record {
        all = omega (arith, h.all);
        auth_failures = ground (arith, h.auth_failures);
        db_errors = ground (arith, h.db_errors);
        firewall_denies = ground (arith, h.firewall_denies);
        bytes = omega (arith, h.bytes);
        addresses = λ ip. ground (arith, h.addresses ip, joined_ips ip e.source_ip m.ips);
        bucket = h.bucket;
      }

module _ {R S : Type 0} ⦃F : Floats R⦄ ⦃q : Session R⦄ where
  roll-minute : (t : Ticks R) (f : Feed R) (p : Pipeline R S) → (roll t (f, p)).0.minute ≡ f.minute
  unfolding roll
  roll-minute t f p = ground arith

  roll-history :
      (t : Ticks R) (f : Feed R) (p : Pipeline R S)
      → length f.history ≤ 241
      → length (roll t (f, p)).0.history ≤ 241
  unfolding roll
  roll-history t f p h = elim (Bool-cases (flt t.elapsed (of_ℕ 5))) [
    | inl early ↦ rw early h
    | inr due ↦ rw due (length-take-le 241 _)
  ]

  -- what a round of the metrics does to the feed
  pub record Feeds (t : Ticks R) (events : List (SecurityEvent R)) (f : Feed R) (p : Pipeline R S)
      (r : Outcome (Unit {0}) × Feed R × Pipeline R S) : Type 0 where
    pub same_minute :
        t.now_minute == f.minute.bucket ≡ true
        → (r.0 ≡ ok tt)
          × Adds events f.minute r.1.minute
          × (r.1.baselines ≡ f.baselines)
          × (r.2.alerts ≡ p.alerts)
    pub new_minute :
        t.now_minute == f.minute.bucket ≡ false
        → ((m : Minute) × Adds events f.minute m × (r.1.last_minute ≡ features m))
          × (r.0 ≡ ok tt → r.1.minute ≡ fresh_minute t.now_minute)

  next_minute-last_minute :
      (n : ℕ) (f : Feed R) (r : Outcome (Unit {0}) × Pipeline R S)
      → (next_minute n f r).1.last_minute ≡ f.last_minute
  next_minute-last_minute n f (ok u, p) = refl
  next_minute-last_minute n f (raised m, p) = refl

  next_minute-fresh :
      (n : ℕ) (f : Feed R) (r : Outcome (Unit {0}) × Pipeline R S)
      → (next_minute n f r).0 ≡ ok tt
      → (next_minute n f r).1.minute ≡ fresh_minute n
  next_minute-fresh n f (ok u, p) h = refl
  next_minute-fresh n f (raised m, p) h = absurd (ground (arith, h))

  roll-baselines :
      (t : Ticks R) (f : Feed R) (p : Pipeline R S) → (roll t (f, p)).0.baselines ≡ f.baselines
  unfolding roll
  roll-baselines t f p = ground arith

  pub roll-alerts :
      (t : Ticks R) (f : Feed R) (p : Pipeline R S) → (roll t (f, p)).1.alerts ≡ p.alerts
  unfolding roll
  roll-alerts t f p = ground arith

  stays :
      (c : Settings R) (t : Ticks R) (f : Feed R) (p : Pipeline R S)
      → t.now_minute == f.minute.bucket ≡ true
      → roll_over c t (f, p) ≡ (ok tt, f, p)
  unfolding roll_over
  stays c t f p h = rw h refl

  turns :
      (c : Settings R) (t : Ticks R) (f : Feed R) (p : Pipeline R S)
      → t.now_minute == f.minute.bucket ≡ false
      → ((roll_over c t (f, p)).1.last_minute ≡ features f.minute)
        × ((roll_over c t (f, p)).0 ≡ ok tt
            → (roll_over c t (f, p)).1.minute ≡ fresh_minute t.now_minute)
  unfolding roll_over
  turns c t f p h =
      rw h (next_minute-last_minute t.now_minute _ _, next_minute-fresh t.now_minute _ _)

  -- A round of the metrics within a minute raises nothing and leaves the baselines and the alerts alone.
  -- Its counters of the minute grow by the number of events of the batch, by those that are failed
  -- logins, database errors and firewall denials, and by the bytes sent, and the addresses of the
  -- batch join those of the minute. The first round of a new minute reports the features of a minute
  -- before that all events of the batch are counted into in this way, and starts the new minute at
  -- zero unless it raises.
  pub update_metrics-Feeds :
      (c : Settings R) (t : Ticks R) (events : List (SecurityEvent R)) (f : Feed R)
      (p : Pipeline R S)
      → Feeds t events f p (update_metrics c t events (f, p))
  unfolding update_metrics
  update_metrics-Feeds c t events f p =
      let counted = record f { minute = count_events events f.minute } in
      let rolled = roll t (counted, p) in
      let same = roll-minute t counted p in
      let bucket : rolled.0.minute.bucket ≡ f.minute.bucket =
        ap (λ m. m.bucket) same ∙ (count_events-Adds events f.minute).bucket in
      record {
        same_minute = λ h.
            let e = stays c t rolled.0 rolled.1 (ap (λ b. t.now_minute == b) bucket ∙ h) in
            (
              ap (λ r. r.0) e,
              subst (Adds events f.minute) (sym (ap (λ r. r.1.minute) e ∙ same))
                  (count_events-Adds events f.minute),
              ap (λ r. r.1.baselines) e ∙ roll-baselines t counted p,
              ap (λ r. r.2.alerts) e ∙ roll-alerts t counted p,
            );
        new_minute = λ h.
            let (last, fresh) =
              turns c t rolled.0 rolled.1 (ap (λ b. t.now_minute == b) bucket ∙ h) in
            (
              (
                count_events events f.minute,
                count_events-Adds events f.minute,
                last ∙ ap (features {R = R}) same,
              ),
              fresh,
            );
      }
