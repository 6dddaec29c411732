-- ===== src/Store.antt =====
-- `EventRepository.bulk_insert` of backend/app/storage/repositories.py: the events table, with the
-- primary key on the event id.
pub mod Insert
use real_time_distributed_si.Prelude.{
  ℕ, ◌-◌, String, Bool, List, [], ◌∷◌, ◌++◌, if◌then◌else◌, str_eq, any, length,
}
use real_time_distributed_si.Event.{SecurityEvent}

module _ {R : Type 0} where
  unfoldable pub has_event : String → List (SecurityEvent R) → Bool
  has_event event_id rows = any (λ e. str_eq e.event_id event_id) rows

  -- one row under ON CONFLICT (event_id) DO NOTHING
  unfoldable pub insert_event : SecurityEvent R → List (SecurityEvent R) → List (SecurityEvent R)
  unfolding has_event
  insert_event e rows = if has_event e.event_id rows then rows else rows ++ e ∷ []

  -- the table after `bulk_insert`
  unfoldable pub bulk_insert :
      List (SecurityEvent R) → List (SecurityEvent R) → List (SecurityEvent R)
  unfolding insert_event
  bulk_insert [] rows = rows
  bulk_insert (e ∷ events) rows = bulk_insert events (insert_event e rows)

  -- the number of rows that RETURNING gives
  unfoldable pub written : List (SecurityEvent R) → List (SecurityEvent R) → ℕ
  unfolding bulk_insert
  written events rows = length (bulk_insert events rows) - length rows
