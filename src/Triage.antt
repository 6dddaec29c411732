-- ===== src/Triage.antt =====
-- backend/app/services/alerts.py: the state transitions of an alert, with their audit trail. The
-- audit table is the list of its rows, the newest last. A commit fails where the changed row meets
-- `uq_alert_open_window`.
pub mod Workflow
pub mod Update
use real_time_distributed_si.Prelude.{
  ℕ, String, Bool, true, false, Option, none, some, List, [], ◌∷◌, ◌++◌, if◌then◌else◌, not, str_eq,
  take_last,
}
use real_time_distributed_si.Enums.{
  AlertStatus, opened, acknowledged, investigating, resolved, false_positive, alert_status_value,
}
use real_time_distributed_si.Value.{
  Value, Values, Fields, get, put, text, list, dict, nil, cons, end, field,
}
use real_time_distributed_si.Alert
use real_time_distributed_si.Alert.{Alert, same_status, update_row}

-- `_ALLOWED_TRANSITIONS`
unfoldable pub allowed_transitions : AlertStatus → List AlertStatus
allowed_transitions opened = acknowledged ∷ investigating ∷ resolved ∷ false_positive ∷ []
allowed_transitions acknowledged = investigating ∷ resolved ∷ false_positive ∷ opened ∷ []
allowed_transitions investigating = acknowledged ∷ resolved ∷ false_positive ∷ opened ∷ []
allowed_transitions resolved = opened ∷ []
allowed_transitions false_positive = opened ∷ []

abbrev pub status_in : AlertStatus → List AlertStatus → Bool
status_in st [] = false
status_in st (t ∷ ts) = if same_status t st then true else status_in st ts

-- `new_status in _ALLOWED_TRANSITIONS.get(current, set())`
unfoldable pub is_allowed : AlertStatus → AlertStatus → Bool
unfolding allowed_transitions same_status
is_allowed current new = status_in new (allowed_transitions current)

-- a row of the audit log
pub record Audit : Type 0 where
  pub actor : String
  pub action : String
  pub target_type : String
  pub target_id : String
  pub request_id : Option String
  pub old_status : AlertStatus
  pub new_status : AlertStatus
  pub note : Option String

pub record Database (R : Type 0) : Type 0 where
  pub alerts : List (Alert R)
  pub audits : List Audit

pub data Answer (R : Type 0) : Type 0 where
  -- no alert has the id
  not_found : Answer R
  updated : Alert R → Answer R
  invalid_transition : Answer R
  -- what the history or the commit raises
  type_error integrity_error : Answer R

abbrev pub max_history : ℕ
max_history = 25

module _ {R : Type 0} where
  abbrev items : Values R → List (Value R)
  items nil = []
  items (cons v vs) = v ∷ items vs

  abbrev of_items : List (Value R) → Values R
  of_items [] = nil
  of_items (v ∷ vs) = cons v (of_items vs)

  abbrev characters : String → List (Value R)
  characters String.[] = []
  characters (String.◌∷◌ c s) = text (String.◌∷◌ c "") ∷ characters s

  abbrev keys : Fields R → List (Value R)
  keys end = []
  keys (field k v d) = text k ∷ keys d

  -- `list(v)`; none for the TypeError
  abbrev pub listed_value : Option (Value R) → Option (List (Value R))
  listed_value none = some []
  listed_value (some (list vs)) = some (items vs)
  listed_value (some (text s)) = some (characters s)
  listed_value (some (dict d)) = some (keys d)
  listed_value (some v) = none

  -- an entry of the status history
  unfoldable pub history_entry : (now_text : String) → AlertStatus → AlertStatus → String → Value R
  history_entry now_text current new actor = dict (
      field "from" (text (alert_status_value current)) (
        field "to" (text (alert_status_value new))
          (field "at" (text now_text) (field "by" (text actor) end))))

  -- the alert in its new status, with the bounded history
  unfoldable pub moved : ℕ → String → AlertStatus → String → List (Value R) → Alert R → Alert R
  moved now now_text new actor history a = record a {
    status = new;
    updated_at = now;
    alert_metadata =
        put "status_history"
          (list (
            of_items
              (take_last max_history (history ++ history_entry now_text a.status new actor ∷ []))))
          a.alert_metadata;
  }

  abbrev audit_of : String → Option String → Option String → AlertStatus → Alert R → Audit
  audit_of actor remark request_id new a = record {
    actor = actor;
    action = "alert_status_change";
    target_type = "alert";
    target_id = a.alert_id;
    request_id = request_id;
    old_status = a.status;
    new_status = new;
    note = remark;
  }

  abbrev committed : Alert R → Audit → Database R → Option (List (Alert R)) → Answer R × Database R
  committed a audit db none = (integrity_error, db)
  committed a audit db (some rows) =
      (updated a, record { alerts = rows; audits = db.audits ++ audit ∷ [] })

  abbrev with_history :
      ℕ
      → String
      → AlertStatus
      → String
      → Option String
      → Option String
      → Alert R
      → Database R
      → Option (List (Value R))
      → Answer R × Database R
  with_history now now_text new actor remark request_id a db none = (type_error, db)
  with_history now now_text new actor remark request_id a db (some history) =
      let a' = moved now now_text new actor history a in
      committed a' (audit_of actor remark request_id new a) db (update_row a' db.alerts)

  unfoldable pub change_status :
      ℕ
      → String
      → AlertStatus
      → String
      → Option String
      → Option String
      → Alert R
      → Database R
      → Answer R × Database R
  change_status now now_text new actor remark request_id a db =
      if same_status a.status new
      then (updated a, db)
      else if not (is_allowed a.status new)
      then (invalid_transition, db)
      else with_history now now_text new actor remark request_id a db
          (listed_value (get "status_history" a.alert_metadata))

  abbrev pub on_alert :
      (Alert R → Answer R × Database R) → Database R → Option (Alert R) → Answer R × Database R
  on_alert change db none = (not_found, db)
  on_alert change db (some a) = change a

  -- `update_alert_status`; the clock gives `now` and its ISO text
  unfoldable pub update_alert_status :
      (now : ℕ) (now_text : String) (alert_id : String) (new_status : AlertStatus) (actor : String)
      (remark request_id : Option String)
      → Database R
      → Answer R × Database R
  unfolding change_status
  update_alert_status now now_text alert_id new actor remark request_id db =
      on_alert (λ a. change_status now now_text new actor remark request_id a db) db
        (Alert.get alert_id db.alerts)
