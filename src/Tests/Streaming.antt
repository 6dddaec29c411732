-- ===== src/Tests/Streaming.antt =====
-- The theorems on normalization and on the batch pipeline at concrete inputs.
use real_time_distributed_si.Prelude.{
  ◌<◌, ◌≤◌, arith, ℕ, ◌≡◌, refl, some, List, [], ◌∷◌, pos, filter, str, mem, ◌||◌, none, String,
}
use real_time_distributed_si.Value.{Fields, end, field, text, int, get}
use real_time_distributed_si.Event.{SecurityEvent}
use real_time_distributed_si.Detection.{Outcome, ok, Detector}
use real_time_distributed_si.Normalize.{Draw, from_raw, event_at, normalize_ts}
use real_time_distributed_si.Normalize.Bounds.{IsBounded, from_raw-IsBounded}
use real_time_distributed_si.Engine.{rule_detectors}
use real_time_distributed_si.Engine.Seen.{rule_detectors-KeepsSeen}
use real_time_distributed_si.Pipeline.{
  Pipeline, Draws, Fault, no_fault, on_insert, process_batch, validated, fresh_events,
  detect_and_persist, persist, ids,
}
use real_time_distributed_si.Pipeline.Replay.{Unchanged, later, replay_lem, failed_batch_lost}
use real_time_distributed_si.Pipeline.{detect, mark_seen}
use real_time_distributed_si.Pipeline.Success.{Persists, process_batch_lem}
use real_time_distributed_si.Store.{has_event, bulk_insert}
use real_time_distributed_si.Store.Insert.{bulk_insert_again}
use real_time_distributed_si.Consumer.{Worker, step, decoded}
use real_time_distributed_si.Consumer.Skip.{failed_batch_skipped}
use real_time_distributed_si.Tests.Fixtures.{
  no_alerts, numbered, Memory, memory, session, empty_memory, thousandths, settings, shown_value,
  failed_login, env_at, platform,
}

abbrev delivered : Fields ℕ
delivered = field "event_id" (text "e1") (field "bytes_out" (int (pos 70)) end)

abbrev draw_a : Draw
draw_a = record { now = 5000; uuid4 = "u1" }

from_raw-IsBounded_example : IsBounded (event_at platform draw_a delivered 5000) 5000
unfolding from_raw normalize_ts get
from_raw-IsBounded_example =
    from_raw-IsBounded platform draw_a delivered (event_at platform draw_a delivered 5000) refl

abbrev start : Pipeline ℕ Memory
start = record {
  redis = empty_memory;
  events = [];
  alerts = [];
  disabled = [];
  w = record {
    ingested = 0;
    invalid = 0;
    duplicate = 0;
    persisted = 0;
    alerts_created = 0;
    alerts_correlated = 0;
    batches = 0;
  };
  published = [];
}

abbrev draws : Fault → Draws
draws fault = record { env = λ i. env_at 40; alert_ids = λ i. "a0"; wall = 40000000; fault = fault }

-- a number is a login at that second, as an event
abbrev login : ℕ → Outcome (SecurityEvent ℕ)
login n = ok (failed_login "e1" n)

abbrev catalogue : List (Detector ℕ Memory)
catalogue = rule_detectors shown_value settings

-- a delivery without a fault, and one whose insertion fails, each some time ago
abbrev delivered_once : ℕ → Pipeline ℕ Memory
delivered_once seconds =
    later seconds (process_batch catalogue login (draws no_fault) (40 ∷ []) start).1

abbrev failed_once : ℕ → Pipeline ℕ Memory
failed_once seconds =
    later seconds (process_batch catalogue login (draws on_insert) (40 ∷ []) start).1

abbrev delivered_again : Pipeline ℕ Memory → Outcome (Unit {0}) × Pipeline ℕ Memory
delivered_again p = process_batch catalogue login (draws no_fault) (40 ∷ []) p

replay_lem_example :
    (599 < 600
      → ((delivered_again (delivered_once 599)).0 ≡ ok tt)
        × Unchanged (delivered_once 599) (delivered_again (delivered_once 599)).1)
    × (600 ≤ 599
        → fresh_events (delivered_once 599).redis (validated login (40 ∷ []))
          ≡ validated login (40 ∷ []))
unfolding validated fresh_events filter
replay_lem_example =
    replay_lem catalogue login login (draws no_fault) (draws no_fault) (40 ∷ []) start
      (failed_login "e1" 40) [] 599 (rule_detectors-KeepsSeen Memory shown_value settings) refl refl

failed_batch_lost_example :
    ((delivered_again (failed_once 300)).0 ≡ ok tt)
    × ((delivered_again (failed_once 300)).1.events ≡ [])
    × ((delivered_again (failed_once 300)).1.alerts ≡ [])
unfolding process_batch validated fresh_events filter detect_and_persist persist
failed_batch_lost_example =
    failed_batch_lost catalogue login login (draws on_insert) (draws no_fault) (40 ∷ []) start
      "OperationalError" 300 (rule_detectors-KeepsSeen Memory shown_value settings) refl refl
      (omega arith)

-- a batch with ids for new alerts
abbrev numbered_draws : Fault → Draws
numbered_draws fault = record {
  env = λ i. env_at 40;
  alert_ids = str;
  wall = 40000000;
  fault = fault;
}

process_batch_lem_example :
    ((process_batch catalogue login (numbered_draws no_fault) (40 ∷ 41 ∷ []) start).0 ≡ ok tt)
    × Persists
        (detect catalogue []
          (λ i. env_at 40)
          0
          (fresh_events empty_memory (validated login (40 ∷ 41 ∷ [])))
          (mark_seen (fresh_events empty_memory (validated login (40 ∷ 41 ∷ []))) empty_memory)).0
        (fresh_events empty_memory (validated login (40 ∷ 41 ∷ [])))
        start
        (process_batch catalogue login (numbered_draws no_fault) (40 ∷ 41 ∷ []) start).1
process_batch_lem_example =
    process_batch_lem catalogue login (numbered_draws no_fault) (40 ∷ 41 ∷ []) start no_alerts
      numbered refl

abbrev worker : Worker ℕ Memory
worker = record { position = 7; committed = 7; consumed = 7; pipeline = start }

failed_batch_skipped_example :
    ((step catalogue login
        (numbered_draws no_fault)
        (some 41 ∷ [])
        (step catalogue login (draws on_insert) (some 40 ∷ none ∷ []) worker)).committed
      ≡ 10)
    × ((x : String)
        → has_event x
            (step catalogue login
              (numbered_draws no_fault)
              (some 41 ∷ [])
              (step catalogue login (draws on_insert) (some 40 ∷ none ∷ []) worker)).pipeline.events
          ≡ (mem x (
                ids (
                  fresh_events
                    (step catalogue login
                      (draws on_insert)
                      (some 40 ∷ none ∷ [])
                      worker).pipeline.redis
                    (validated login (41 ∷ []))))
              || has_event {R = ℕ} x []))
unfolding process_batch validated fresh_events filter detect_and_persist persist decoded
failed_batch_skipped_example =
    failed_batch_skipped catalogue login (draws on_insert) (numbered_draws no_fault)
      (some 40 ∷ none ∷ []) (some 41 ∷ []) worker 40 41 [] [] "OperationalError" refl refl refl
      no_alerts numbered refl

bulk_insert_again_example :
    bulk_insert
      (failed_login "e1" 40 ∷ [])
      (bulk_insert (failed_login "e2" 41 ∷ []) (bulk_insert (failed_login "e1" 40 ∷ []) []))
    ≡ bulk_insert (failed_login "e2" 41 ∷ []) (bulk_insert (failed_login "e1" 40 ∷ []) [])
bulk_insert_again_example =
    bulk_insert_again (failed_login "e1" 40 ∷ []) (failed_login "e2" 41 ∷ []) []
