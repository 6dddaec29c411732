-- ===== src/Lib.antt =====
-- Verification of a real-time security event engine: Python code that reads events from a broker,
-- normalizes them, runs seven detection rules over sliding windows in Redis, folds detections into
-- alerts in PostgreSQL, and lets analysts move the alerts through a workflow.
--
-- Parts, with the code under backend/app/ that each models (a path that starts with simulator/ is
-- from the root of the repository):
--   Enums         schemas/enums.py: the enumerations, their wire values, severity ranks.
--   Value         JSON values with Python's dict operations, `str`, `int` and truth (Value.Convert).
--   Event         schemas/event.py: the record `SecurityEvent`.
--   Normalize     schemas/event.py: every field validator, and `SecurityEvent.from_raw`.
--   Redis         the commands on sorted sets and plain sets that the code sends, with the documented
--                 effect of each as a law. A parameter of the development.
--   Window        detection/windows.py: `WindowStore`, with the encoding of members.
--   Settings      core/config.py: the thresholds of detection.
--   Detection     detection/base.py: `Detection`, `Detector`.
--   Rule.*        detection/rules/*.py: the seven detectors, each with `applies_to` and `evaluate`.
--   Regex         the constructs of Python's `re` that the patterns of the SQL rule use.
--   Engine        detection/engine.py: the catalogue, `set_enabled`, `evaluate`.
--   Alert         models/alert.py and `AlertRepository` of storage/repositories.py: the alert table
--                 with its unique constraint.
--   Correlation   detection/correlation.py: `AlertCorrelator.apply`.
--   Store         `EventRepository.bulk_insert` of storage/repositories.py.
--   Pipeline      streaming/pipeline.py: `process_batch`, its counters and its publications.
--   Anomaly       detection/anomaly.py: `observe` and `baseline`.
--   Ml            detection/ml.py: the buffer and the training of the isolation forest, a parameter.
--   Metrics       streaming/pipeline.py: `_update_metrics`, `_flush_minute`, the alerts of a minute, the
--                 gauge of active alerts.
--   Consumer      streaming/kafka.py and worker.py: decoding, the loop of the worker, the offsets.
--   Triage        services/alerts.py: `update_alert_status` with history and audit.
--   RateLimit     core/security.py: `RateLimitMiddleware`.
--   Enrichment    detection/enrichment.py: the synthetic provider of reputations.
--   Query         `EventRepository` and `AlertRepository` of storage/repositories.py: the searches with
--                 their pages, the groupings, the time series and the largest rows. What the database
--                 does with ORDER BY, ILIKE and an order that is not asked for is a parameter: ties and
--                 unordered results may come in any order.
--   Catalogue     api/routes/detections.py: the list of the rules with their activity.
--   Dashboard     services/metrics_service.py: the counts of alerts of `dashboard_metrics`, read back from
--                 the keys that the repository writes.
--   Vitals        services/metrics_service.py: `dashboard_metrics` with the freshness of the values that
--                 the worker leaves in Redis, and the status of api/routes/system.py.
--   Producer      streaming/kafka.py: `send_batch`; the batch builder is a parameter.
--   Simulator     simulator/simulator/engine.py: rate, queue and sending of the event generator
--                 (Simulator.Sync: the state taken over from Redis); simulator/simulator/models.py and
--                 generators/normal.py (Simulator.Models, Simulator.Normal) and scenarios/ beside them
--                 (Simulator.Scenarios). Every random draw is a parameter, Simulator.World.
--   Control       services/simulator_control.py and api/routes/simulator.py: the state that an operator
--                 wants of the simulator.
--   Floats        Python's `float` as a carrier with operations and the laws of the order.
--   Prelude       lists, texts, numbers and tests that the parts share.
--   Tests         instances of the parameters, and the theorems at concrete inputs.
-- The Consumer decodes records and calls Pipeline. Pipeline calls Normalize by way of an argument,
-- Redis for the ids that were seen, Engine for detections, Store and Correlation in one transaction.
-- Engine calls the Rules, which keep their state in Window. After a batch Metrics calls Anomaly and Ml,
-- and folds their detections by Correlation. Triage works on the table of Alert, Query reads it and the
-- table of events, Dashboard sums what Query counts, Vitals puts it into the answer of the dashboard,
-- and Catalogue shows it by rule. Control writes the state that Simulator.Sync takes over, and what
-- Simulator makes comes back by way of the broker to Normalize and the Rules.
--
-- How it is modelled: state is passed explicitly, and an operation returns its result with the new
-- state. An exception is `raised` of `Detection.Outcome`, or none. An instant is a number of
-- microseconds since year 1. The wall clock, the random tokens and UUIDs, and a fault of the database
-- are arguments (`Detection.Env`, `Pipeline.Draws`, `Normalize.Draw`); each transaction of a minute's
-- alerts has a fault of its own. Time passes in Redis by `elapse`, after which a key whose time to live
-- is over is gone. The set-valued results of the
-- windows are lists without repetition, in the order of Redis. No definition takes fuel but
-- the iteration of a regular expression and the first 50 items of the metadata: the iteration has as
-- many rounds as the text has positions, and each round that goes on uses up a character.
--
-- Not modelled: the HTTP API but the routes of the detections, of the control of the simulator and
-- the status of the system, and the WebSocket feed, authentication, logging and metrics registries,
-- which hold no logic of the engine; the heartbeat, the printed statistics and the command line of the
-- simulator. A text over the length of its column in the table of events is among the faults of the
-- database, which are an argument, and the length limits of the alert table are left out. A float
-- that is made an integer is finite.
pub mod Alert
pub mod Anomaly
pub mod Catalogue
pub mod Consumer
pub mod Control
pub mod Correlation
pub mod Dashboard
pub mod Detection
pub mod Engine
pub mod Enrichment
pub mod Enums
pub mod Event
pub mod Floats
pub mod Metrics
pub mod Ml
pub mod Normalize
pub mod Pipeline
pub mod Prelude
pub mod Producer
pub mod Query
pub mod RateLimit
pub mod Redis
pub mod Regex
pub mod Rule
pub mod Settings
pub mod Simulator
pub mod Store
pub mod Tests
pub mod Triage
pub mod Value
pub mod Vitals
pub mod Window
