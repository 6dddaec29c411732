-- ===== src/Consumer/Skip.antt =====
-- backend/app/worker.py: what becomes of a batch whose processing raises.
use real_time_distributed_si.Prelude.{
  ℕ, ◌+◌, String, ◌≡◌, refl, sym, ap, ◌∙◌, List, ◌∷◌, ◌||◌, arith, length, mem,
}
use mathlib.Core.Path.{subst}
use real_time_distributed_si.Floats.{Floats}
use real_time_distributed_si.Event.{SecurityEvent}
use real_time_distributed_si.Redis.{Redis}
use real_time_distributed_si.Detection.{Detector, Outcome, ok, raised}
use real_time_distributed_si.Alert.{Session}
use real_time_distributed_si.Store.{has_event}
use real_time_distributed_si.Pipeline.{
  Pipeline, Draws, no_fault, ids, fresh_events, validated, process_batch,
}
use real_time_distributed_si.Pipeline.Replay.{failed_tables}
use real_time_distributed_si.Pipeline.Success.{IsSound, NewIds, process_batch_lem}
use real_time_distributed_si.Consumer.{Worker, Record, decoded, settle, work, step}

module _ {R S : Type 0} where
  settle_ok :
      (n : ℕ) (w : Worker R S) (r : Outcome (Unit {0}) × Pipeline R S)
      → r.0 ≡ ok tt
      → settle n w r
        ≡ record w { pipeline = r.1; committed = w.position; consumed = w.consumed + n }
  settle_ok n w (ok u, p) h = refl
  settle_ok n w (raised m, p) h = absurd (ground arith)

  settle_raised :
      (n : ℕ) (w : Worker R S) (r : Outcome (Unit {0}) × Pipeline R S) (m : String)
      → r.0 ≡ raised m
      → settle n w r ≡ record w { pipeline = r.1 }
  settle_raised n w (ok u, p) m h = absurd (ground arith)
  settle_raised n w (raised k, p) m h = refl

module _ {R S Raw : Type 0} ⦃F : Floats R⦄ ⦃q : Session R⦄ ⦃rd : Redis S⦄ (ds : List (Detector R S))
    (from_raw : Raw → Outcome (SecurityEvent R)) where
  step_ok :
      (draws : Draws) (records : List (Record Raw)) (w : Worker R S) (b : Raw) (bs : List Raw)
      → decoded records ≡ b ∷ bs
      → (process_batch ds from_raw draws (b ∷ bs) w.pipeline).0 ≡ ok tt
      → ((step ds from_raw draws records w).committed ≡ w.position + length records)
        × ((step ds from_raw draws records w).pipeline
            ≡ (process_batch ds from_raw draws (b ∷ bs) w.pipeline).1)
  unfolding step
  step_ok draws records w b bs d h =
      let moved = record w { position = w.position + length records } in
      let e = settle_ok (length (b ∷ bs)) moved _ h in
      (
        ap (λ l. (work ds from_raw draws l moved).committed) d ∙ ap (λ v. v.committed) e,
        ap (λ l. (work ds from_raw draws l moved).pipeline) d ∙ ap (λ v. v.pipeline) e,
      )

  step_raised :
      (draws : Draws) (records : List (Record Raw)) (w : Worker R S) (b : Raw) (bs : List Raw)
      (m : String)
      → decoded records ≡ b ∷ bs
      → (process_batch ds from_raw draws (b ∷ bs) w.pipeline).0 ≡ raised m
      → ((step ds from_raw draws records w).position ≡ w.position + length records)
        × ((step ds from_raw draws records w).committed ≡ w.committed)
        × ((step ds from_raw draws records w).pipeline
            ≡ (process_batch ds from_raw draws (b ∷ bs) w.pipeline).1)
  unfolding step
  step_raised draws records w b bs m d h =
      let moved = record w { position = w.position + length records } in
      let e = settle_raised (length (b ∷ bs)) moved _ m h in
      (
        ap (λ l. (work ds from_raw draws l moved).position) d ∙ ap (λ v. v.position) e,
        ap (λ l. (work ds from_raw draws l moved).committed) d ∙ ap (λ v. v.committed) e,
        ap (λ l. (work ds from_raw draws l moved).pipeline) d ∙ ap (λ v. v.pipeline) e,
      )

  -- A round whose batch raises, then a round whose batch meets no fault: the offset committed after the
  -- second covers the records of both, and the events table has the ids that it had before the two
  -- rounds and those of the new events of the second batch alone. The alert table is sound at first,
  -- and the second batch has new ids for new alerts.
  pub failed_batch_skipped :
      (draws draws' : Draws) (records records' : List (Record Raw)) (w : Worker R S) (b b' : Raw)
      (bs bs' : List Raw) (m : String)
      → decoded records ≡ b ∷ bs
      → decoded records' ≡ b' ∷ bs'
      → (process_batch ds from_raw draws (b ∷ bs) w.pipeline).0 ≡ raised m
      → IsSound w.pipeline.alerts
      → NewIds draws'.alert_ids 0 w.pipeline.alerts
      → draws'.fault ≡ no_fault
      → ((step ds from_raw draws' records' (step ds from_raw draws records w)).committed
          ≡ (w.position + length records) + length records')
        × ((x : String)
            → has_event x
                (step ds from_raw draws' records'
                  (step ds from_raw draws records w)).pipeline.events
              ≡ (mem x (
                    ids (
                      fresh_events
                        (step ds from_raw draws records w).pipeline.redis
                        (validated from_raw (b' ∷ bs'))))
                  || has_event x w.pipeline.events))
  failed_batch_skipped draws draws' records records' w b b' bs bs' m d d' failed s new fine =
      let v = step ds from_raw draws records w in
      let (at, _, p) = step_raised draws records w b bs m d failed in
      let (events, alerts) = failed_tables ds from_raw draws (b ∷ bs) w.pipeline m failed in
      let same : v.pipeline.alerts ≡ w.pipeline.alerts = ap (λ y. y.alerts) p ∙ alerts in
      let (done, h) =
        process_batch_lem ds from_raw draws' (b' ∷ bs') v.pipeline (subst IsSound (sym same) s)
          (subst (NewIds draws'.alert_ids 0) (sym same) new) fine in
      let (committed, p') = step_ok draws' records' v b' bs' d' done in
      (
        committed ∙ ap (λ n. n + length records') at,
        λ x.
            ap (λ y. has_event x y.events) p'
            ∙ h.stored x
            ∙ ap
                (λ y.
                  mem x (ids (fresh_events v.pipeline.redis (validated from_raw (b' ∷ bs'))))
                  || has_event x y)
                (ap (λ y. y.events) p ∙ events),
      )
