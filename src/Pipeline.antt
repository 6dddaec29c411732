-- ===== src/Pipeline.antt =====
-- backend/app/streaming/pipeline.py: `process_batch`, from raw payloads to stored events and alerts.
-- `from_raw` is an argument; the metrics feed after the publication is left out. A fault of the
-- database is an argument too: it can strike at the insertion of the events or at the commit.
pub mod Replay
pub mod Success
use real_time_distributed_si.Prelude.{
  ℕ, zero, suc, ◌+◌, ◌-◌, String, Bool, true, false, Option, none, some, List, [], ◌∷◌, ◌++◌, map,
  if◌then◌else◌, not, filter, take, length, ltb, ◌==◌,
}
use real_time_distributed_si.Floats.{Floats}
use real_time_distributed_si.Event.{SecurityEvent}
use real_time_distributed_si.Redis.{Redis}
use real_time_distributed_si.Detection.{Detection, Detector, Env, Outcome, ok, raised}
use real_time_distributed_si.Engine
use real_time_distributed_si.Alert.{Alert, Session}
use real_time_distributed_si.Correlation
use real_time_distributed_si.Correlation.{Applied}
use real_time_distributed_si.Store.{bulk_insert, written}

-- the rolling counters `_w`
pub record Counters : Type 0 where
  pub ingested : ℕ
  pub invalid : ℕ
  pub duplicate : ℕ
  pub persisted : ℕ
  pub alerts_created : ℕ
  pub alerts_correlated : ℕ
  pub batches : ℕ

-- what goes to the real-time channels
pub data Message (R : Type 0) : Type 0 where
  event_message : SecurityEvent R → Message R
  alert_message : Alert R → Message R

pub record Pipeline (R S : Type 0) : Type 0 where
  pub redis : S
  pub events : List (SecurityEvent R)
  pub alerts : List (Alert R)
  pub disabled : List String
  pub w : Counters
  pub published : List (Message R)

pub data Fault : Type 0 where
  no_fault on_insert on_commit : Fault

-- what a batch draws from outside: per event and rule, the id of each new alert, and the clock
pub record Draws : Type 0 where
  pub env : ℕ → String → Env
  pub alert_ids : ℕ → String
  pub wall : ℕ
  pub fault : Fault

abbrev pub dedup_key : String
dedup_key = "siem:seen-events"

abbrev pub dedup_ttl : ℕ
dedup_ttl = 600

module _ {R : Type 0} where
  abbrev pub ids : List (SecurityEvent R) → List String
  ids events = map (λ e. e.event_id) events

  -- the events that validation lets through
  unfoldable pub validated :
      {Raw : Type 0} → (Raw → Outcome (SecurityEvent R)) → List Raw → List (SecurityEvent R)
  validated from_raw [] = []
  validated from_raw (raw ∷ raws) = add (from_raw raw) (validated from_raw raws)
    where
      add : Outcome (SecurityEvent R) → List (SecurityEvent R) → List (SecurityEvent R)
      add (ok e) rest = e ∷ rest
      add (raised m) rest = rest

module _ {R S : Type 0} ⦃rd : Redis S⦄ where
  -- the events whose id the dedup set does not hold
  unfoldable pub fresh_events : S → List (SecurityEvent R) → List (SecurityEvent R)
  fresh_events s events = filter (λ e. not (rd.sismember dedup_key e.event_id s)) events

  unfoldable pub mark_seen : List (SecurityEvent R) → S → S
  mark_seen events s = rd.expire dedup_key dedup_ttl (rd.sadd dedup_key (ids events) s)

-- the detection loop; `i` counts the events
unfoldable pub detect :
    {R S : Type 0}
    → List (Detector R S)
    → List String
    → (ℕ → String → Env)
    → ℕ
    → List (SecurityEvent R)
    → S
    → List (Detection R) × S
detect ds disabled env i [] s = ([], s)
detect ds disabled env i (e ∷ events) s =
    let (found, s') = Engine.evaluate ds disabled (env i) e s in
    let (rest, s'') = detect ds disabled env (suc i) events s' in (found ++ rest, s'')

-- what the correlation loop leaves: the table, the alerts to publish, the two counts, and whether a
-- flush met a conflict, at which the loop stops
pub record Folded (R : Type 0) : Type 0 where
  pub rows : List (Alert R)
  pub payloads : List (Alert R)
  pub made : ℕ
  pub merged : ℕ
  pub conflict : Bool

abbrev pub count_applied : {R : Type 0} → Applied R → Folded R → Folded R
count_applied r f = record f {
  payloads = r.alert ∷ f.payloads;
  made = (if r.created then f.made + 1 else f.made);
  merged = (if r.created then f.merged else f.merged + 1);
}

abbrev pub next :
    {R : Type 0} → List (Alert R) → (List (Alert R) → Folded R) → Option (Applied R) → Folded R
next rows rest none = record { rows = rows; payloads = []; made = 0; merged = 0; conflict = true }
next rows rest (some r) = count_applied r (rest r.rows)

-- the correlation loop; `i` counts the detections
unfoldable pub correlate :
    {R : Type 0} ⦃F : Floats R⦄ ⦃q : Session R⦄
    → (ℕ → String)
    → ℕ
    → ℕ
    → List (Detection R)
    → List (Alert R)
    → Folded R
correlate alert_ids wall i [] rows = record {
  rows = rows;
  payloads = [];
  made = 0;
  merged = 0;
  conflict = false;
}
correlate alert_ids wall i (d ∷ ds) rows =
    next rows (correlate alert_ids wall (suc i) ds) (Correlation.apply (alert_ids i) wall d rows)

-- publication: at most 100 events of a batch, then the alerts
unfoldable pub messages : {R : Type 0} → List (SecurityEvent R) → List (Alert R) → List (Message R)
messages events alerts = map event_message (take 100 events) ++ map alert_message alerts

abbrev pub is_fault : Fault → Fault → Bool
is_fault on_insert on_insert = true
is_fault on_commit on_commit = true
is_fault _ _ = false

module _ {R S : Type 0} ⦃F : Floats R⦄ ⦃q : Session R⦄ where
  -- the transaction with its effects, once the detections are there
  unfoldable pub persist :
      Draws
      → List (SecurityEvent R)
      → List (Detection R)
      → Pipeline R S
      → Outcome (Unit {0}) × Pipeline R S
  persist draws fresh found p =
      let f = correlate draws.alert_ids draws.wall 0 found p.alerts in
      let w = record p.w {
        persisted = p.w.persisted + written fresh p.events;
        alerts_created = p.w.alerts_created + f.made;
        alerts_correlated = p.w.alerts_correlated + f.merged;
      } in
      if is_fault draws.fault on_insert
      then (raised "OperationalError", p)
      else if f.conflict
      then (raised "IntegrityError", record p { w = w })
      else if is_fault draws.fault on_commit
      then (raised "OperationalError", record p { w = w })
      else (
        ok tt,
        record p {
          events = bulk_insert fresh p.events;
          alerts = f.rows;
          w = record w { batches = p.w.batches + 1 };
          published = p.published ++ messages fresh f.payloads;
        },
      )

  unfoldable pub detect_and_persist :
      ⦃rd : Redis S⦄
      → List (Detector R S)
      → Draws
      → List (SecurityEvent R)
      → Pipeline R S
      → Outcome (Unit {0}) × Pipeline R S
  unfolding persist
  detect_and_persist ds draws [] p = (ok tt, p)
  detect_and_persist ds draws (e ∷ fresh) p =
      let (found, s) =
        detect ds p.disabled draws.env 0 (e ∷ fresh) (mark_seen (e ∷ fresh) p.redis) in
      persist draws (e ∷ fresh) found (record p { redis = s })

  -- `process_batch`; what the batch has changed before a raise stays changed
  unfoldable pub process_batch :
      {Raw : Type 0} ⦃rd : Redis S⦄
      → List (Detector R S)
      → (Raw → Outcome (SecurityEvent R))
      → Draws
      → List Raw
      → Pipeline R S
      → Outcome (Unit {0}) × Pipeline R S
  unfolding detect_and_persist
  process_batch ds from_raw draws raws p =
      let valid = validated from_raw raws in
      let fresh = fresh_events p.redis valid in
      detect_and_persist ds draws fresh (record p {
        w = record p.w {
          ingested = p.w.ingested + length raws;
          invalid = p.w.invalid + (length raws - length valid);
          duplicate = p.w.duplicate + (length valid - length fresh);
        };
      })
