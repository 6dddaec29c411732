-- ===== src/Alert.antt =====
-- backend/app/models/alert.py and the `AlertRepository` of backend/app/storage/repositories.py.
-- The table is the list of its rows. `scalar` of the session, which returns the first row of a query
-- that leaves the order open, is a parameter.
pub mod Rows
use real_time_distributed_si.Prelude.{
  ℕ, String, Bool, true, false, ◌≡◌, ◌≢◌, Option, none, some, List, [], ◌∷◌, ◌++◌, ◌&&◌, ◌||◌, not,
  if◌then◌else◌, str_eq, filter, any, In,
}
use real_time_distributed_si.Enums.{
  Severity, AlertStatus, DetectionKind, opened, acknowledged, investigating, alert_status_value,
}
use real_time_distributed_si.Value.{Fields}
use real_time_distributed_si.Detection.{Evidence}

pub record Alert (R : Type 0) : Type 0 where
  pub alert_id : String
  pub rule_id : String
  pub detection_kind : DetectionKind
  pub title : String
  pub description : String
  pub severity : Severity
  pub confidence : R
  pub status : AlertStatus
  pub first_seen : ℕ
  pub last_seen : ℕ
  pub source_ip : Option String
  pub affected_host : Option String
  pub event_count : ℕ
  pub involved_users : List String
  pub involved_hosts : List String
  pub evidence : List Evidence
  pub recommended_action : String
  pub correlation_key : String
  pub anomaly_score : Option R
  pub alert_metadata : Fields R
  pub created_at : ℕ
  pub updated_at : ℕ

-- equality of stored statuses
unfoldable pub same_status : AlertStatus → AlertStatus → Bool
unfolding alert_status_value
same_status a b = str_eq (alert_status_value a) (alert_status_value b)

-- the statuses of `get_open_by_key` and of `_ACTIVE_STATUSES`
unfoldable pub open_status : AlertStatus → Bool
open_status st =
    same_status st opened || (same_status st acknowledged || same_status st investigating)

-- `session.scalar(stmt)` on the rows that the query selects
pub record Session (R : Type 0) : Type 0 where
  pub scalar : List (Alert R) → Option (Alert R)
  pub scalar-nil : scalar [] ≡ none
  pub scalar-cons : (a : Alert R) (rest : List (Alert R)) → scalar (a ∷ rest) ≢ none
  pub scalar-in : (a : Alert R) (rows : List (Alert R)) → scalar rows ≡ some a → In a rows

module _ {R : Type 0} where
  abbrev pub same_window : String → String → Alert R → Bool
  same_window rule_id key a = str_eq a.rule_id rule_id && str_eq a.correlation_key key

  abbrev pub is_open_row : Alert R → Bool
  is_open_row a = open_status a.status

  -- the rows that `get_open_by_key` selects
  unfoldable pub open_by_key : String → String → List (Alert R) → List (Alert R)
  open_by_key rule_id key rows = filter (λ a. same_window rule_id key a && is_open_row a) rows

  -- `get_open_by_key`
  unfoldable pub get_open_by_key :
      ⦃q : Session R⦄ → String → String → List (Alert R) → Option (Alert R)
  unfolding open_by_key
  get_open_by_key ⦃q⦄ rule_id key rows = q.scalar (open_by_key rule_id key rows)

  -- `get`, by the primary key
  unfoldable pub get : String → List (Alert R) → Option (Alert R)
  get alert_id [] = none
  get alert_id (a ∷ rows) = if str_eq a.alert_id alert_id then some a else get alert_id rows

  -- another row holds the rule, key and status of `a`: `uq_alert_open_window`
  unfoldable pub violates : Alert R → Alert R → Bool
  violates a b =
      not (str_eq b.alert_id a.alert_id)
      && (same_window a.rule_id a.correlation_key b && same_status b.status a.status)

  unfoldable pub replace_row : Alert R → List (Alert R) → List (Alert R)
  replace_row a [] = []
  replace_row a (b ∷ rows) = (if str_eq b.alert_id a.alert_id then a else b) ∷ replace_row a rows

  -- a flush of a new row; none for the IntegrityError
  unfoldable pub insert_row : Alert R → List (Alert R) → Option (List (Alert R))
  unfolding violates
  insert_row a rows = if any (violates a) rows then none else some (rows ++ a ∷ [])

  -- a flush of a changed row
  unfoldable pub update_row : Alert R → List (Alert R) → Option (List (Alert R))
  unfolding violates replace_row
  update_row a rows = if any (violates a) rows then none else some (replace_row a rows)
