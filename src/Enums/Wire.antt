-- ===== src/Enums/Wire.antt =====
-- backend/app/schemas/enums.py: reading a wire value back, for every enumeration that the event
-- validators parse.
use real_time_distributed_si.Prelude.{String, ◌≡◌, ◌↔◌, refl, some, List, [], ◌∷◌, arith, eq_iff}
use real_time_distributed_si.Enums.{
  Severity, SourceType, EventType, EventStatus, severity_of, source_type_of, event_type_of,
  event_status_of, severity_value, source_type_value, event_type_value, event_status_value,
  AlertStatus, alert_status_of, alert_status_value, member_of, severities, source_types,
  event_types, event_statuses,
}

-- the member found has the text as its value
member_of-value :
    {A : Type 0} (value : A → String) (l : List A) (s : String) (a : A)
    → member_of value l s ≡ some a
    → value a ≡ s
unfolding member_of
member_of-value value [] s a h = cc
member_of-value value (b ∷ l) s a h =
    ground (arith, eq_iff (value b) s, member_of-value value l s a)

pub severity_of_value : (m : Severity) → severity_of (severity_value m) ≡ some m
unfolding severity_of
severity_of_value Severity.info = refl
severity_of_value _ = refl

pub alert_status_of_value : (m : AlertStatus) → alert_status_of (alert_status_value m) ≡ some m
unfolding alert_status_of
alert_status_of_value AlertStatus.resolved = refl
alert_status_of_value _ = refl

event_type_of_value : (m : EventType) → event_type_of (event_type_value m) ≡ some m
unfolding event_type_of
event_type_of_value EventType.auth_success = refl
event_type_of_value _ = refl

source_type_of_value : (m : SourceType) → source_type_of (source_type_value m) ≡ some m
unfolding source_type_of
source_type_of_value SourceType.dns = refl
source_type_of_value _ = refl

event_status_of_value : (m : EventStatus) → event_status_of (event_status_value m) ≡ some m
unfolding event_status_of
event_status_of_value EventStatus.success = refl
event_status_of_value _ = refl

severity_value-of : (s : String) (m : Severity) → severity_of s ≡ some m → severity_value m ≡ s
unfolding severity_of
severity_value-of s m h = member_of-value severity_value severities s m h

source_type_value-of :
    (s : String) (m : SourceType) → source_type_of s ≡ some m → source_type_value m ≡ s
unfolding source_type_of
source_type_value-of s m h = member_of-value source_type_value source_types s m h

event_type_value-of :
    (s : String) (m : EventType) → event_type_of s ≡ some m → event_type_value m ≡ s
unfolding event_type_of
event_type_value-of s m h = member_of-value event_type_value event_types s m h

event_status_value-of :
    (s : String) (m : EventStatus) → event_status_of s ≡ some m → event_status_value m ≡ s
unfolding event_status_of
event_status_value-of s m h = member_of-value event_status_value event_statuses s m h

-- A text is read as a severity, source type, event type or event status exactly when it is that
-- member's wire value, so reading and writing are inverse on every member.
pub wire_round_trip :
    (s : String) (v : Severity) (t : SourceType) (e : EventType) (st : EventStatus)
    → ((severity_of s ≡ some v) ↔ (severity_value v ≡ s))
      × ((source_type_of s ≡ some t) ↔ (source_type_value t ≡ s))
      × ((event_type_of s ≡ some e) ↔ (event_type_value e ≡ s))
      × ((event_status_of s ≡ some st) ↔ (event_status_value st ≡ s))
wire_round_trip s v t e st = (
  (severity_value-of s v, λ h. rw (← h) (severity_of_value v)),
  (source_type_value-of s t, λ h. rw (← h) (source_type_of_value t)),
  (event_type_value-of s e, λ h. rw (← h) (event_type_of_value e)),
  (event_status_value-of s st, λ h. rw (← h) (event_status_of_value st)),
)
