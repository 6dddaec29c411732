-- ===== src/Normalize/Identity.antt =====
-- backend/app/schemas/event.py: which id an event gets, and when a payload is refused.
use real_time_distributed_si.Prelude.{ℕ, true, ◌≡◌, refl, arith}
use real_time_distributed_si.Floats.{Floats}
use real_time_distributed_si.Value.{Value, Fields}
use real_time_distributed_si.Value.Convert.{value_truthy}
use real_time_distributed_si.Event.{SecurityEvent}
use real_time_distributed_si.Detection.{Outcome, ok, raised}
use real_time_distributed_si.Normalize.{
  Platform, Draw, from_raw, event_at, event_id_of, built, value_at,
}

module _ {R : Type 0} ⦃F : Floats R⦄ (pf : Platform R) where
  event_id-eq :
      (a b : Draw) (v : Value R) → value_truthy v ≡ true → event_id_of pf a v ≡ event_id_of pf b v
  unfolding event_id_of
  event_id-eq a b v h = rw h refl

  built-event_id :
      (a b : Draw) (d : Fields R) (e e' : SecurityEvent R) (o o' : Outcome ℕ)
      → value_truthy (value_at "event_id" d) ≡ true
      → built pf a d o ≡ ok e
      → built pf b d o' ≡ ok e'
      → e.event_id ≡ e'.event_id
  unfolding event_at
  built-event_id a b d e e' (raised m) o' h p q = absurd (ground arith)
  built-event_id a b d e e' (ok t) (raised m) h p q = absurd (ground arith)
  built-event_id a b d e e' (ok t) (ok t') h p q =
      ground (arith, event_id-eq a b (value_at "event_id" d) h)

  -- A payload that carries an event id gets the same id whenever it is accepted, whatever the clock and
  -- the random draws.
  pub from_raw-event_id :
      (a b : Draw) (d : Fields R) (e e' : SecurityEvent R)
      → value_truthy (value_at "event_id" d) ≡ true
      → from_raw pf a d ≡ ok e
      → from_raw pf b d ≡ ok e'
      → e.event_id ≡ e'.event_id
  unfolding from_raw
  from_raw-event_id a b d e e' h p q = built-event_id a b d e e' _ _ h p q
