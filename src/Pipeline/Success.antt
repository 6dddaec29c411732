-- ===== src/Pipeline/Success.antt =====
-- backend/app/streaming/pipeline.py: a batch whose transaction meets no fault of the database.
use real_time_distributed_si.Prelude.{
  ℕ, suc, ◌≤◌, ◌<◌, String, false, ◌≡◌, refl, List, [], ◌∷◌, arith, str_eq, All, length, mem, ◌||◌,
}
use real_time_distributed_si.Store.{has_event}
use real_time_distributed_si.Store.Insert.{has_event-bulk_insert}
use real_time_distributed_si.Floats.{Floats}
use real_time_distributed_si.Event.{SecurityEvent}
use real_time_distributed_si.Redis.{Redis}
use real_time_distributed_si.Detection.{Detection, Detector, Outcome, ok}
use real_time_distributed_si.Alert.{Alert, Session, open_by_key}
use real_time_distributed_si.Alert.Rows.{DistinctIds, OneActive}
use real_time_distributed_si.Correlation.{Applied}
use real_time_distributed_si.Correlation.Total.{Correlated, apply_total}
use real_time_distributed_si.Pipeline.{
  Pipeline, Draws, no_fault, validated, fresh_events, detect, mark_seen, persist,
  detect_and_persist, process_batch, correlate, ids, Folded, count_applied,
}

module _ {R : Type 0} where
  -- an alert table is sound: its ids are distinct, and a rule and key have one active alert at most
  pub record IsSound (rows : List (Alert R)) : Type 0 where
    pub distinct : DistinctIds rows
    pub one : OneActive rows

  -- the ids that a batch may give are new to the table and differ from each other
  pub record NewIds (alert_ids : ℕ → String) (i : ℕ) (rows : List (Alert R)) : Type 0 where
    pub absent : (j : ℕ) → i ≤ j → All (λ b. str_eq b.alert_id (alert_ids j) ≡ false) rows
    pub apart : (j k : ℕ) → j < k → str_eq (alert_ids j) (alert_ids k) ≡ false

  -- the loop ran to its end, and each detection has one active alert of its rule and key
  pub record Completes (ds : List (Detection R)) (before : List (Alert R)) (f : Folded R)
      : Type 0 where
    pub no_conflict : f.conflict ≡ false
    pub sound : IsSound f.rows
    pub kept : (r k : String) → length (open_by_key r k before) ≤ length (open_by_key r k f.rows)
    pub alerted : All (λ d. length (open_by_key d.rule_id d.correlation_key f.rows) ≡ 1) ds

module _ {R : Type 0} ⦃F : Floats R⦄ ⦃q : Session R⦄ (alert_ids : ℕ → String) (wall : ℕ) where
  pub NewIds-next :
      (i : ℕ) (d : Detection R) (rows rows' : List (Alert R))
      → Correlated (alert_ids i) d.rule_id d.correlation_key rows rows'
      → NewIds alert_ids i rows
      → NewIds alert_ids (suc i) rows'
  NewIds-next i d rows rows' c new = record {
    absent = λ j le. c.ids (alert_ids j) (new.absent j (omega arith)) (new.apart i j le);
    apart = new.apart;
  }

  goes_on :
      (i : ℕ) (d : Detection R) (ds : List (Detection R)) (rows : List (Alert R)) (r : Applied R)
      → Correlated (alert_ids i) d.rule_id d.correlation_key rows r.rows
      → NewIds alert_ids i rows
      → (NewIds alert_ids (suc i) r.rows
          → Completes ds r.rows (correlate alert_ids wall (suc i) ds r.rows))
      → Completes (d ∷ ds) rows (count_applied r (correlate alert_ids wall (suc i) ds r.rows))
  goes_on i d ds rows r c new rest =
      let h = rest (NewIds-next i d rows r.rows c new) in
      record {
        no_conflict = h.no_conflict;
        sound = h.sound;
        kept = λ k j. omega (arith, c.kept k j, h.kept k j);
        alerted = (
          omega (
            arith,
            c.exactly,
            h.kept d.rule_id d.correlation_key,
            h.sound.one d.rule_id d.correlation_key,
          ),
          h.alerted,
        );
      }

  correlate-Completes :
      (i : ℕ) (ds : List (Detection R)) (rows : List (Alert R))
      → IsSound rows
      → NewIds alert_ids i rows
      → Completes ds rows (correlate alert_ids wall i ds rows)
  unfolding correlate
  correlate-Completes i [] rows s new = record {
    no_conflict = refl;
    sound = s;
    kept = λ r k. omega arith;
    alerted = tt;
  }
  correlate-Completes i (d ∷ ds) rows s new =
      let (r, e, c) =
        apply_total (alert_ids i) wall d rows s.distinct s.one (new.absent i (omega arith)) in
      rw e (
        goes_on i d ds rows r c new
          (correlate-Completes (suc i) ds r.rows (record { distinct = c.distinct; one = c.one })))

module _ {R S : Type 0} ⦃F : Floats R⦄ ⦃q : Session R⦄ where
  -- what a batch does to the tables: the detections found in the new events each have one active alert,
  -- and exactly the new events join the events table
  pub record Persists (found : List (Detection R)) (fresh : List (SecurityEvent R))
      (p p' : Pipeline R S) : Type 0 where
    pub sound : IsSound p'.alerts
    pub alerted : All (λ d. length (open_by_key d.rule_id d.correlation_key p'.alerts) ≡ 1) found
    pub stored : (x : String) → has_event x p'.events ≡ (mem x (ids fresh) || has_event x p.events)

  persist-Persists :
      (draws : Draws) (fresh : List (SecurityEvent R)) (found : List (Detection R))
      (p : Pipeline R S)
      → IsSound p.alerts
      → NewIds draws.alert_ids 0 p.alerts
      → draws.fault ≡ no_fault
      → ((persist draws fresh found p).0 ≡ ok tt)
        × Persists found fresh p (persist draws fresh found p).1
  unfolding persist
  persist-Persists draws fresh found p s new fine =
      let c = correlate-Completes draws.alert_ids draws.wall 0 found p.alerts s new in
      rw (fine, c.no_conflict)
        (
          refl,
          record {
            sound = c.sound;
            alerted = c.alerted;
            stored = λ x. has_event-bulk_insert x fresh p.events;
          },
        )

  persisted :
      ⦃rd : Redis S⦄ (ds : List (Detector R S)) (draws : Draws) (fresh : List (SecurityEvent R))
      (p : Pipeline R S)
      → IsSound p.alerts
      → NewIds draws.alert_ids 0 p.alerts
      → draws.fault ≡ no_fault
      → ((detect_and_persist ds draws fresh p).0 ≡ ok tt)
        × Persists
            (detect ds p.disabled draws.env 0 fresh (mark_seen fresh p.redis)).0
            fresh
            p
            (detect_and_persist ds draws fresh p).1
  unfolding detect_and_persist detect mem
  persisted ds draws [] p s new fine =
      (refl, record { sound = s; alerted = tt; stored = λ x. refl })
  persisted ds draws (e ∷ fresh) p s new fine =
      let (done, h) = persist-Persists draws (e ∷ fresh) _ (record p { redis = _ }) s new fine in
      (done, record { sound = h.sound; alerted = h.alerted; stored = h.stored })

  -- A batch that meets no fault of the database, on a table of alerts with distinct ids and at most one
  -- active alert for each rule and key, with new ids for new alerts: it returns without an error,
  -- both conditions hold again, each detection of its new events has exactly one active alert of
  -- its rule and key, and the events table has exactly the ids that it had and those of the new events.
  pub process_batch_lem :
      {Raw : Type 0} ⦃rd : Redis S⦄ (ds : List (Detector R S))
      (from_raw : Raw → Outcome (SecurityEvent R)) (draws : Draws) (raws : List Raw)
      (p : Pipeline R S)
      → IsSound p.alerts
      → NewIds draws.alert_ids 0 p.alerts
      → draws.fault ≡ no_fault
      → ((process_batch ds from_raw draws raws p).0 ≡ ok tt)
        × Persists
            (detect ds p.disabled draws.env 0
              (fresh_events p.redis (validated from_raw raws))
              (mark_seen (fresh_events p.redis (validated from_raw raws)) p.redis)).0
            (fresh_events p.redis (validated from_raw raws))
            p
            (process_batch ds from_raw draws raws p).1
  unfolding process_batch
  process_batch_lem ds from_raw draws raws p s new fine =
      let (done, h) =
        persisted ds draws (fresh_events p.redis (validated from_raw raws)) (record p { w = _ }) s
          new fine in
      (done, record { sound = h.sound; alerted = h.alerted; stored = h.stored })
