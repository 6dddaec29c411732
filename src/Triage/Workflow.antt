-- ===== src/Triage/Workflow.antt =====
-- backend/app/services/alerts.py: the workflow graph against the active states of
-- backend/app/schemas/enums.py.
use real_time_distributed_si.Prelude.{true, ◌≡◌, refl, not, if◌then◌else◌}
use real_time_distributed_si.Enums.{
  AlertStatus, opened, acknowledged, investigating, resolved, false_positive, is_active,
}
use real_time_distributed_si.Alert.{same_status}
use real_time_distributed_si.Triage.{is_allowed}

-- allowed changes of status, one after the other
pub data Moves (target : AlertStatus) : AlertStatus → Type 0 where
  there : Moves target target
  go : {st next : AlertStatus} → is_allowed st next ≡ true → Moves target next → Moves target st

-- An active status may change to every status but itself, and a terminal one to OPEN alone.
pub is_allowed_lem :
    (current new : AlertStatus)
    → is_allowed current new
      ≡ (if is_active current then not (same_status new current) else same_status new opened)
unfolding is_allowed is_active same_status
is_allowed_lem opened opened = refl
is_allowed_lem opened _ = refl
is_allowed_lem acknowledged opened = refl
is_allowed_lem acknowledged _ = refl
is_allowed_lem investigating opened = refl
is_allowed_lem investigating _ = refl
is_allowed_lem resolved opened = refl
is_allowed_lem resolved _ = refl
is_allowed_lem false_positive opened = refl
is_allowed_lem _ _ = refl

to_open : (st : AlertStatus) → Moves opened st
unfolding is_allowed
to_open opened = there
to_open _ = go refl there

from_open : (target : AlertStatus) → Moves target opened
unfolding is_allowed
from_open opened = there
from_open _ = go refl there

after : {t s u : AlertStatus} → Moves t s → Moves u t → Moves u s
after there m = m
after (go e r) m = go e (after r m)

-- Every status can be reached from every other by allowed changes.
pub Moves-all : (target st : AlertStatus) → Moves target st
Moves-all target st = after (to_open st) (from_open target)
