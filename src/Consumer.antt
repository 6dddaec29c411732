-- ===== src/Consumer.antt =====
-- backend/app/streaming/kafka.py and backend/app/worker.py: the consumer's offsets and the worker's
-- loop over batches. One partition is modelled, and a position is the number of records read. The
-- broker keeps what `commit` sends: the position of the consumer.
pub mod Skip
use real_time_distributed_si.Prelude.{ℕ, ◌+◌, ◌-◌, Option, none, some, List, [], ◌∷◌, length}
use real_time_distributed_si.Floats.{Floats}
use real_time_distributed_si.Event.{SecurityEvent}
use real_time_distributed_si.Redis.{Redis}
use real_time_distributed_si.Detection.{Detector, Outcome, ok, raised}
use real_time_distributed_si.Alert.{Session}
use real_time_distributed_si.Pipeline.{Pipeline, Draws, process_batch}

pub record Worker (R S : Type 0) : Type 0 where
  pub position : ℕ
  pub committed : ℕ
  pub consumed : ℕ
  pub pipeline : Pipeline R S

-- a message off the broker: decoded, or no JSON
abbrev pub Record : Type 0 → Type 0
Record Raw = Option Raw

-- the decoding loop of `batches`; what cannot be decoded is logged and dropped
unfoldable pub decoded : {Raw : Type 0} → List (Record Raw) → List Raw
decoded [] = []
decoded (none ∷ records) = decoded records
decoded (some raw ∷ records) = raw ∷ decoded records

abbrev pub settle : {R S : Type 0} → ℕ → Worker R S → Outcome (Unit {0}) × Pipeline R S → Worker R S
-- a processed batch is committed up to the position of the consumer
settle n w (ok _, p) = record w { pipeline = p; committed = w.position; consumed = w.consumed + n }
-- a failed one is logged, and the loop goes on
settle n w (raised m, p) = record w { pipeline = p }

module _ {R S Raw : Type 0} ⦃F : Floats R⦄ ⦃q : Session R⦄ ⦃rd : Redis S⦄ where
  abbrev work :
      List (Detector R S)
      → (Raw → Outcome (SecurityEvent R))
      → Draws
      → List Raw
      → Worker R S
      → Worker R S
  work ds from_raw draws [] w = w
  work ds from_raw draws (raw ∷ batch) w =
      settle (length (raw ∷ batch)) w (process_batch ds from_raw draws (raw ∷ batch) w.pipeline)

  -- one round of the loop: `getmany` moves the position over the records it returns
  unfoldable pub step :
      List (Detector R S)
      → (Raw → Outcome (SecurityEvent R))
      → Draws
      → List (Record Raw)
      → Worker R S
      → Worker R S
  step ds from_raw draws records w =
      work ds from_raw draws (decoded records) (record w { position = w.position + length records })

-- `lag`: the records of each partition past the position, for the end offsets that the broker gives
unfoldable pub lag : List (Option ℕ × ℕ) → ℕ
lag [] = 0
lag ((none, position) ∷ parts) = lag parts
lag ((some end, position) ∷ parts) = (end - position) + lag parts
