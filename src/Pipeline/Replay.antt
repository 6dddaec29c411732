-- ===== src/Pipeline/Replay.antt =====
-- backend/app/streaming/pipeline.py: a batch that is delivered again.
use real_time_distributed_si.Prelude.{
  ℕ, suc, String, true, false, ◌≡◌, refl, ap, ◌∙◌, List, [], ◌∷◌, ◌||◌, not, arith, str_eq_refl,
  eq_iff, mem, filter, All, filter_none, some, ◌<◌, ◌≤◌, leb, if◌then◌else◌,
}
use mathlib.Core.Path.{subst}
use real_time_distributed_si.Floats.{Floats}
use real_time_distributed_si.Event.{SecurityEvent}
use real_time_distributed_si.Redis.{Redis, is_past}
use real_time_distributed_si.Redis.Seen.{SameSeen, SameSeen-refl, SameSeen-trans}
use real_time_distributed_si.Detection.{Detection, Detector, Env, Outcome, ok, raised}
use real_time_distributed_si.Engine.Seen.{KeepsSeen, evaluate-SameSeen}
use real_time_distributed_si.Alert.{Session}
use real_time_distributed_si.Pipeline.{
  Pipeline, Draws, dedup_key, dedup_ttl, ids, validated, fresh_events, mark_seen, detect, persist,
  detect_and_persist, process_batch,
}

module _ {R S : Type 0} ⦃rd : Redis S⦄ where
  detect-SameSeen :
      (ds : List (Detector R S)) (disabled : List String) (env : ℕ → String → Env) (i : ℕ)
      (events : List (SecurityEvent R)) (s : S)
      → All KeepsSeen ds
      → SameSeen s (detect ds disabled env i events s).1
  unfolding detect
  detect-SameSeen ds disabled env i [] s h = SameSeen-refl s
  detect-SameSeen ds disabled env i (e ∷ events) s h =
      SameSeen-trans (evaluate-SameSeen ds disabled (env i) e s h)
        (detect-SameSeen ds disabled env (suc i) events _ h)

  seen-mark_seen :
      (m : String) (events : List (SecurityEvent R)) (s : S)
      → rd.sismember dedup_key m (mark_seen events s)
        ≡ (mem m (ids events) || rd.sismember dedup_key m s)
  unfolding mark_seen
  seen-mark_seen m events s =
      rd.sismember-expire dedup_key m dedup_key _ _
      ∙ rd.sismember-sadd dedup_key dedup_key m (ids events) s

  -- a valid event is fresh or was seen
  fresh_or_seen :
      (m : String) (s : S) (events : List (SecurityEvent R))
      → mem m (ids events) ≡ true
      → (mem m (ids (fresh_events s events)) || rd.sismember dedup_key m s) ≡ true
  unfolding fresh_events filter mem
  fresh_or_seen m s [] h = cc
  fresh_or_seen m s (e ∷ events) h = ground (arith, fresh_or_seen m s events, eq_iff e.event_id m)

  each_seen :
      (s : S) (events : List (SecurityEvent R))
      → ((m : String) → mem m (ids events) ≡ true → rd.sismember dedup_key m s ≡ true)
      → All (λ e. not (rd.sismember dedup_key e.event_id s) ≡ false) events
  unfolding mem
  each_seen s [] g = tt
  each_seen s (e ∷ events) g = (
    ap not (g e.event_id (ground (arith, str_eq_refl e.event_id))),
    each_seen s events (λ m r. g m (ground (arith, r))),
  )

  -- the state that a batch leaves holds the id of each of its valid events
  persist-redis :
      ⦃F : Floats R⦄ ⦃q : Session R⦄ (draws : Draws) (fresh : List (SecurityEvent R))
      (found : List (Detection R)) (p : Pipeline R S)
      → (persist draws fresh found p).1.redis ≡ p.redis
  unfolding persist
  persist-redis draws fresh found p = ground arith

  seen-detect_and_persist :
      ⦃F : Floats R⦄ ⦃q : Session R⦄ (ds : List (Detector R S)) (draws : Draws)
      (fresh : List (SecurityEvent R)) (p : Pipeline R S) (m : String)
      → All KeepsSeen ds
      → rd.sismember dedup_key m (detect_and_persist ds draws fresh p).1.redis
        ≡ (mem m (ids fresh) || rd.sismember dedup_key m p.redis)
  unfolding detect_and_persist mem
  seen-detect_and_persist ds draws [] p m h = refl
  seen-detect_and_persist ds draws (e ∷ fresh) p m h =
      ap (rd.sismember dedup_key m) (persist-redis draws (e ∷ fresh) _ _)
      ∙ (detect-SameSeen ds p.disabled draws.env 0 (e ∷ fresh) _ h).at dedup_key m
      ∙ seen-mark_seen m (e ∷ fresh) p.redis

  seen-process_batch :
      {Raw : Type 0} ⦃F : Floats R⦄ ⦃q : Session R⦄ (ds : List (Detector R S))
      (from_raw : Raw → Outcome (SecurityEvent R)) (draws : Draws) (raws : List Raw)
      (p : Pipeline R S) (m : String)
      → All KeepsSeen ds
      → mem m (ids (validated from_raw raws)) ≡ true
      → rd.sismember dedup_key m (process_batch ds from_raw draws raws p).1.redis ≡ true
  unfolding process_batch
  seen-process_batch ds from_raw draws raws p m h valid =
      seen-detect_and_persist ds draws (fresh_events p.redis (validated from_raw raws)) _ m h
      ∙ fresh_or_seen m p.redis (validated from_raw raws) valid

  -- the ids that a batch with a fresh event leaves live for ten minutes
  ttl-detect_and_persist :
      ⦃F : Floats R⦄ ⦃q : Session R⦄ (ds : List (Detector R S)) (draws : Draws)
      (e : SecurityEvent R) (fresh : List (SecurityEvent R)) (p : Pipeline R S)
      → All KeepsSeen ds
      → rd.ttl dedup_key (detect_and_persist ds draws (e ∷ fresh) p).1.redis ≡ some dedup_ttl
  unfolding detect_and_persist mark_seen mem
  ttl-detect_and_persist ds draws e fresh p h =
      let marked : rd.sismember dedup_key e.event_id (rd.sadd dedup_key (ids (e ∷ fresh)) p.redis)
          ≡ true =
        rd.sismember-sadd dedup_key dedup_key e.event_id (ids (e ∷ fresh)) p.redis
        ∙ ground (arith, str_eq_refl e.event_id) in
      ap (rd.ttl dedup_key) (persist-redis draws (e ∷ fresh) _ _)
      ∙ (detect-SameSeen ds p.disabled draws.env 0 (e ∷ fresh) _ h).lives
      ∙ rd.ttl-expire dedup_key e.event_id dedup_ttl _ marked

  ttl-process_batch :
      {Raw : Type 0} ⦃F : Floats R⦄ ⦃q : Session R⦄ (ds : List (Detector R S))
      (from_raw : Raw → Outcome (SecurityEvent R)) (draws : Draws) (raws : List Raw)
      (p : Pipeline R S) (e : SecurityEvent R) (fresh : List (SecurityEvent R))
      → All KeepsSeen ds
      → fresh_events p.redis (validated from_raw raws) ≡ e ∷ fresh
      → rd.ttl dedup_key (process_batch ds from_raw draws raws p).1.redis ≡ some dedup_ttl
  unfolding process_batch
  ttl-process_batch ds from_raw draws raws p e fresh h found =
      rw found (ttl-detect_and_persist ds draws e fresh _ h)

  no_fresh :
      ⦃F : Floats R⦄ ⦃q : Session R⦄ (ds : List (Detector R S)) (draws : Draws)
      (fresh : List (SecurityEvent R)) (p : Pipeline R S)
      → fresh ≡ []
      → detect_and_persist ds draws fresh p ≡ (ok tt, p)
  unfolding detect_and_persist
  no_fresh ds draws fresh p e = rw e

  -- what a batch of seen events leaves alone
  pub record Unchanged (p p' : Pipeline R S) : Type 0 where
    pub redis : p'.redis ≡ p.redis
    pub events : p'.events ≡ p.events
    pub alerts : p'.alerts ≡ p.alerts
    pub published : p'.published ≡ p.published

  seen_batch :
      {Raw : Type 0} ⦃F : Floats R⦄ ⦃q : Session R⦄ (ds : List (Detector R S))
      (from_raw : Raw → Outcome (SecurityEvent R)) (draws : Draws) (raws : List Raw)
      (p : Pipeline R S)
      → fresh_events p.redis (validated from_raw raws) ≡ []
      → ((process_batch ds from_raw draws raws p).0 ≡ ok tt)
        × Unchanged p (process_batch ds from_raw draws raws p).1
  unfolding process_batch
  seen_batch ds from_raw draws raws p none_fresh =
      let e = no_fresh ds draws (fresh_events p.redis (validated from_raw raws)) _ none_fresh in
      (
        ap (λ r. r.0) e,
        record {
          redis = ap (λ r. r.1.redis) e;
          events = ap (λ r. r.1.events) e;
          alerts = ap (λ r. r.1.alerts) e;
          published = ap (λ r. r.1.published) e;
        },
      )

  -- the state when so many seconds have passed
  abbrev pub later : ℕ → Pipeline R S → Pipeline R S
  later n p = record p { redis = rd.elapse n p.redis }

  each_new :
      (s : S) (events : List (SecurityEvent R))
      → ((m : String) → rd.sismember dedup_key m s ≡ false)
      → fresh_events s events ≡ events
  unfolding fresh_events filter
  each_new s [] g = refl
  each_new s (e ∷ events) g = rw (g e.event_id) (ap (◌∷◌ e) (each_new s events g))

  -- A batch with a fresh event that is delivered again less than 600 seconds after its ids were marked as
  -- seen, with the same event ids in its valid events, returns without an error and changes neither
  -- the tables nor Redis nor what is published, whether or not the first delivery raised. From 600
  -- seconds on the ids are forgotten, and every valid event of the batch is fresh again. The detectors
  -- leave the set of seen ids alone, and nothing else is processed in between.
  pub replay_lem :
      {Raw : Type 0} ⦃F : Floats R⦄ ⦃q : Session R⦄ (ds : List (Detector R S))
      (from_raw from_raw' : Raw → Outcome (SecurityEvent R)) (draws draws' : Draws)
      (raws : List Raw) (p : Pipeline R S) (e : SecurityEvent R) (fresh : List (SecurityEvent R))
      (seconds : ℕ)
      → All KeepsSeen ds
      → ids (validated from_raw' raws) ≡ ids (validated from_raw raws)
      → fresh_events p.redis (validated from_raw raws) ≡ e ∷ fresh
      → (seconds < 600
          → ((process_batch ds from_raw' draws' raws
                (later seconds (process_batch ds from_raw draws raws p).1)).0
              ≡ ok tt)
            × Unchanged
                (later seconds (process_batch ds from_raw draws raws p).1)
                (process_batch ds from_raw' draws' raws
                  (later seconds (process_batch ds from_raw draws raws p).1)).1)
        × (600 ≤ seconds
            → fresh_events
                (later seconds (process_batch ds from_raw draws raws p).1).redis
                (validated from_raw' raws)
              ≡ validated from_raw' raws)
  unfolding fresh_events
  replay_lem {Raw} ds from_raw from_raw' draws draws' raws p e fresh seconds h same found =
      let s = (process_batch ds from_raw draws raws p).1.redis in
      let kept : (m : String)
          → rd.sismember dedup_key m (rd.elapse seconds s)
            ≡ (if leb 600 seconds then false else rd.sismember dedup_key m s) =
        λ m.
          rd.sismember-elapse dedup_key m seconds s
          ∙ ap (λ o. if is_past seconds o then false else rd.sismember dedup_key m s)
              (ttl-process_batch ds from_raw draws raws p e fresh h found) in
      (
        λ soon.
            seen_batch ds from_raw' draws' raws
              (later seconds (process_batch ds from_raw draws raws p).1)
              (filter_none _ (validated from_raw' raws) (
                each_seen _ (validated from_raw' raws) (λ m valid.
                  let seen =
                    seen-process_batch ds from_raw draws raws p m h
                      (subst (λ l. mem m l ≡ true) same valid) in
                  kept m ∙ ground (arith, soon, seen)))),
        λ late. each_new _ (validated from_raw' raws) (λ m. kept m ∙ ground (arith, late)),
      )

  persist_failed :
      ⦃F : Floats R⦄ ⦃q : Session R⦄ (draws : Draws) (fresh : List (SecurityEvent R))
      (found : List (Detection R)) (p : Pipeline R S) (m : String)
      → (persist draws fresh found p).0 ≡ raised m
      → ((persist draws fresh found p).1.events ≡ p.events)
        × ((persist draws fresh found p).1.alerts ≡ p.alerts)
  unfolding persist
  persist_failed draws fresh found p m h = ground arith

  detect_failed :
      ⦃F : Floats R⦄ ⦃q : Session R⦄ (ds : List (Detector R S)) (draws : Draws)
      (fresh : List (SecurityEvent R)) (p : Pipeline R S) (m : String)
      → (detect_and_persist ds draws fresh p).0 ≡ raised m
      → ((detect_and_persist ds draws fresh p).1.events ≡ p.events)
        × ((detect_and_persist ds draws fresh p).1.alerts ≡ p.alerts)
  unfolding detect_and_persist
  detect_failed ds draws [] p m h = absurd (ground arith)
  detect_failed ds draws (e ∷ fresh) p m h = persist_failed draws (e ∷ fresh) _ _ m h

  pub failed_tables :
      {Raw : Type 0} ⦃F : Floats R⦄ ⦃q : Session R⦄ (ds : List (Detector R S))
      (from_raw : Raw → Outcome (SecurityEvent R)) (draws : Draws) (raws : List Raw)
      (p : Pipeline R S) (m : String)
      → (process_batch ds from_raw draws raws p).0 ≡ raised m
      → ((process_batch ds from_raw draws raws p).1.events ≡ p.events)
        × ((process_batch ds from_raw draws raws p).1.alerts ≡ p.alerts)
  unfolding process_batch
  failed_tables ds from_raw draws raws p m h =
      detect_failed ds draws (fresh_events p.redis (validated from_raw raws)) _ m h

  failed_fresh :
      ⦃F : Floats R⦄ ⦃q : Session R⦄ (ds : List (Detector R S)) (draws : Draws)
      (events : List (SecurityEvent R)) (p : Pipeline R S) (m : String)
      → (detect_and_persist ds draws events p).0 ≡ raised m
      → (e : SecurityEvent R) × (fresh : List (SecurityEvent R)) × (events ≡ e ∷ fresh)
  unfolding detect_and_persist
  failed_fresh ds draws [] p m h = absurd (ground arith)
  failed_fresh ds draws (e ∷ fresh) p m h = (e, fresh, refl)

  -- A batch whose first delivery raised is lost to every delivery less than 600 seconds after its ids
  -- were marked as seen: delivered again then, with the same event ids in its valid events, it returns
  -- without an error, and both tables are still what they were before the first delivery. The
  -- detectors leave the set of seen ids alone, and nothing else is processed in between.
  pub failed_batch_lost :
      {Raw : Type 0} ⦃F : Floats R⦄ ⦃q : Session R⦄ (ds : List (Detector R S))
      (from_raw from_raw' : Raw → Outcome (SecurityEvent R)) (draws draws' : Draws)
      (raws : List Raw) (p : Pipeline R S) (m : String) (seconds : ℕ)
      → All KeepsSeen ds
      → ids (validated from_raw' raws) ≡ ids (validated from_raw raws)
      → (process_batch ds from_raw draws raws p).0 ≡ raised m
      → seconds < 600
      → ((process_batch ds from_raw' draws' raws
            (later seconds (process_batch ds from_raw draws raws p).1)).0
          ≡ ok tt)
        × ((process_batch ds from_raw' draws' raws
              (later seconds (process_batch ds from_raw draws raws p).1)).1.events
            ≡ p.events)
        × ((process_batch ds from_raw' draws' raws
              (later seconds (process_batch ds from_raw draws raws p).1)).1.alerts
            ≡ p.alerts)
  unfolding process_batch
  failed_batch_lost ds from_raw from_raw' draws draws' raws p m seconds h same failed soon =
      let (e, fresh, found) =
        failed_fresh ds draws (fresh_events p.redis (validated from_raw raws)) _ m failed in
      let (done, u) =
        (replay_lem ds from_raw from_raw' draws draws' raws p e fresh seconds h same found).0
          soon in
      let (events, alerts) = failed_tables ds from_raw draws raws p m failed in
      (done, u.events ∙ events, u.alerts ∙ alerts)
