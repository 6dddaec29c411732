-- ===== src/Store/Insert.antt =====
-- backend/app/storage/repositories.py: what `bulk_insert` leaves in the events table.
use real_time_distributed_si.Prelude.{
  String, true, ◌≡◌, refl, ◌∙◌, List, [], ◌∷◌, ◌++◌, ◌||◌, arith, map, str_eq, str_eq_refl, eq_iff,
  any, mem, Bool-cases, inl, inr,
}
use mathlib.Core.Path.{subst}
use real_time_distributed_si.Event.{SecurityEvent}
use real_time_distributed_si.Store.{has_event, insert_event, bulk_insert}

module _ {R : Type 0} where
  has_event-append :
      (x : String) (e : SecurityEvent R) (rows : List (SecurityEvent R))
      → has_event x (rows ++ e ∷ []) ≡ (str_eq e.event_id x || has_event x rows)
  unfolding has_event any
  has_event-append x e [] = ground arith
  has_event-append x e (r ∷ rows) = ground (arith, has_event-append x e rows)

  known :
      (x y : String) (rows : List (SecurityEvent R))
      → has_event y rows ≡ true
      → has_event x rows ≡ (str_eq y x || has_event x rows)
  known x y rows h = elim (Bool-cases (str_eq y x)) [
    | inl same ↦ rw same (subst (λ z. has_event z rows ≡ true) ((eq_iff y x).0 same) h)
    | inr other ↦ rw other refl
  ]

  has_event-insert :
      (x : String) (e : SecurityEvent R) (rows : List (SecurityEvent R))
      → has_event x (insert_event e rows) ≡ (str_eq e.event_id x || has_event x rows)
  unfolding insert_event
  has_event-insert x e rows = elim (Bool-cases (has_event e.event_id rows)) [
    | inl there ↦ rw there (known x e.event_id rows there)
    | inr new ↦ rw new (has_event-append x e rows)
  ]

  -- After an insertion of a batch the table has exactly the ids that it had and those of the batch.
  pub has_event-bulk_insert :
      (x : String) (events rows : List (SecurityEvent R))
      → has_event x (bulk_insert events rows)
        ≡ (mem x (map (λ e. e.event_id) events) || has_event x rows)
  unfolding bulk_insert mem
  has_event-bulk_insert x [] rows = refl
  has_event-bulk_insert x (e ∷ events) rows =
      has_event-bulk_insert x events (insert_event e rows)
      ∙ ground (arith, has_event-insert x e rows)

  bulk_insert_absent :
      (events rows : List (SecurityEvent R))
      → ((x : String) → mem x (map (λ e. e.event_id) events) ≡ true → has_event x rows ≡ true)
      → bulk_insert events rows ≡ rows
  unfolding bulk_insert insert_event mem
  bulk_insert_absent [] rows h = refl
  bulk_insert_absent (e ∷ events) rows h =
      rw (h e.event_id (ground (arith, str_eq_refl e.event_id)))
        (bulk_insert_absent events rows (λ x m. h x (ground (arith, m))))

  -- The insertion is idempotent: a batch that is inserted again leaves the table as it is, even after
  -- another batch in between.
  pub bulk_insert_again :
      (events between rows : List (SecurityEvent R))
      → bulk_insert events (bulk_insert between (bulk_insert events rows))
        ≡ bulk_insert between (bulk_insert events rows)
  bulk_insert_again events between rows = bulk_insert_absent events _ (λ x m.
      has_event-bulk_insert x between (bulk_insert events rows)
      ∙ ground (arith, m, has_event-bulk_insert x events rows))
