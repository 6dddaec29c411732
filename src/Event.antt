-- ===== src/Event.antt =====
-- backend/app/schemas/event.py: the normalized event that detection and storage work on.
-- An instant is the number of microseconds since year 1, the resolution and the first value of
-- Python's datetime, so no instant is negative. An event id is the canonical text of its UUID.
use real_time_distributed_si.Prelude.{ℕ, ◌/◌, ◌%◌, String, Option}
use real_time_distributed_si.Enums.{Severity, SourceType, EventType, EventStatus}
use real_time_distributed_si.Value.{Fields}

pub record SecurityEvent (R : Type 0) : Type 0 where
  pub event_id : String
  pub timestamp : ℕ
  pub ingested_at : ℕ
  pub source : String
  pub source_type : SourceType
  pub event_type : EventType
  pub source_ip : Option String
  pub destination_ip : Option String
  pub destination_port : Option ℕ
  pub username : Option String
  pub service : Option String
  pub action : Option String
  pub status : Option EventStatus
  pub severity : Severity
  pub message : Option String
  pub bytes_out : ℕ
  pub bytes_in : ℕ
  pub metadata : Fields R

abbrev pub microseconds : ℕ
microseconds = 1000000

-- `timestamp.hour`
unfoldable pub hour : ℕ → ℕ
hour t = (t / 3600000000) % 24
