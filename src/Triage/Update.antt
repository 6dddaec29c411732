-- ===== src/Triage/Update.antt =====
-- backend/app/services/alerts.py: what `update_alert_status` does to the tables.
use real_time_distributed_si.Prelude.{
  ℕ, String, true, false, ◌≡◌, ◌≢◌, inl, inr, refl, ap, ◌∙◌, Option, none, some, List, [], ◌∷◌,
  ◌++◌, arith, str_eq, eq_iff, Bool-cases, any-true, In,
}
use real_time_distributed_si.Enums.{AlertStatus, alert_status_value}
use real_time_distributed_si.Value.{get, Value}
use real_time_distributed_si.Alert
use real_time_distributed_si.Alert.{Alert, same_status, update_row, replace_row, violates}
use real_time_distributed_si.Triage.{
  Database, Audit, Answer, updated, integrity_error, update_alert_status, change_status,
  with_history, committed, audit_of, moved, is_allowed, on_alert, listed_value,
}

module _ {R : Type 0} where
  -- the move of `old` to `a` in the new status, with its audit row
  pub record IsMove (actor : String) (new : AlertStatus) (old a : Alert R) (audit : Audit)
      : Type 0 where
    pub allowed : is_allowed old.status new ≡ true
    pub status : a.status ≡ new
    pub same_id : a.alert_id ≡ old.alert_id
    pub same_rule : a.rule_id ≡ old.rule_id
    pub same_key : a.correlation_key ≡ old.correlation_key
    pub same_severity : a.severity ≡ old.severity
    pub target : audit.target_id ≡ old.alert_id
    pub by : audit.actor ≡ actor
    pub from_status : audit.old_status ≡ old.status
    pub to_status : audit.new_status ≡ new

  -- how a call for an alert may leave the tables: as they were, or with this alert moved and the move
  -- audited in the name of the actor
  pub data Outcome (alert_id actor : String) (new : AlertStatus) (db : Database R)
      : Answer R × Database R → Type 0 where
    same_state :
        {a : Alert R}
        → Alert.get alert_id db.alerts ≡ some a
        → same_status a.status new ≡ true
        → Outcome alert_id actor new db (updated a, db)
    refused :
        {r : Answer R} → ((a : Alert R) → r ≢ updated a) → Outcome alert_id actor new db (r, db)
    changed :
        (old : Alert R) (audit : Audit) {a : Alert R} {rows : List (Alert R)}
        → Alert.get alert_id db.alerts ≡ some old
        → IsMove actor new old a audit
        → update_row a db.alerts ≡ some rows
        → Outcome alert_id actor new db
            (updated a, record { alerts = rows; audits = db.audits ++ audit ∷ [] })

  with_history-Outcome :
      (now : ℕ) (now_text alert_id : String) (new : AlertStatus) (actor : String)
      (remark request_id : Option String) (a : Alert R) (db : Database R)
      (o : Option (List (Value R)))
      → Alert.get alert_id db.alerts ≡ some a
      → is_allowed a.status new ≡ true
      → Outcome alert_id actor new db (with_history now now_text new actor remark request_id a db o)
  unfolding moved
  with_history-Outcome now now_text alert_id new actor remark request_id a db none found h =
      refused (λ b. ground arith)
  with_history-Outcome now now_text alert_id new actor remark request_id a db (some history) found
        h =
      committed-Outcome (moved now now_text new actor history a) _ _ refl (record {
        allowed = h;
        status = refl;
        same_id = refl;
        same_rule = refl;
        same_key = refl;
        same_severity = refl;
        target = refl;
        by = refl;
        from_status = refl;
        to_status = refl;
      })
    where
      committed-Outcome :
          (b : Alert R) (audit : Audit) (o : Option (List (Alert R)))
          → update_row b db.alerts ≡ o
          → IsMove actor new a b audit
          → Outcome alert_id actor new db (committed b audit db o)
      committed-Outcome b audit none e m = refused (λ c. ground arith)
      committed-Outcome b audit (some rows) e m = changed a audit found m e

  change_status-Outcome :
      (now : ℕ) (now_text alert_id : String) (new : AlertStatus) (actor : String)
      (remark request_id : Option String) (a : Alert R) (db : Database R)
      → Alert.get alert_id db.alerts ≡ some a
      → Outcome alert_id actor new db (change_status now now_text new actor remark request_id a db)
  unfolding change_status
  change_status-Outcome now now_text alert_id new actor remark request_id a db found =
      elim (Bool-cases (same_status a.status new)) [
        | inl same ↦ rw same (same_state found same)
        | inr other ↦ rw other (elim (Bool-cases (is_allowed a.status new)) [
          | inl ok ↦ rw ok (
              with_history-Outcome now now_text alert_id new actor remark request_id a db
                (listed_value (get "status_history" a.alert_metadata)) found ok)
          | inr bad ↦ rw bad (refused (λ b. ground arith))
        ])
      ]

  on_alert-Outcome :
      (alert_id actor : String) (change : Alert R → Answer R × Database R) (db : Database R)
      (new : AlertStatus) (o : Option (Alert R))
      → Alert.get alert_id db.alerts ≡ o
      → ((a : Alert R)
          → Alert.get alert_id db.alerts ≡ some a
          → Outcome alert_id actor new db (change a))
      → Outcome alert_id actor new db (on_alert change db o)
  on_alert-Outcome alert_id actor change db new none found h = refused (λ b. ground arith)
  on_alert-Outcome alert_id actor change db new (some a) found h = h a found

  -- Every call of `update_alert_status` either leaves both tables as they were, because the alert of the
  -- given id is in the new status already or because the call fails, or moves this alert from the
  -- status that it has to the new one, by an allowed transition, and appends exactly one audit row,
  -- which names the alert, the actor and both statuses. The moved alert keeps its id, its rule, its
  -- correlation key and its severity.
  pub update_alert_status-Outcome :
      (now : ℕ) (now_text alert_id : String) (new : AlertStatus) (actor : String)
      (remark request_id : Option String) (db : Database R)
      → Outcome alert_id actor new db
          (update_alert_status now now_text alert_id new actor remark request_id db)
  unfolding update_alert_status
  update_alert_status-Outcome now now_text alert_id new actor remark request_id db =
      on_alert-Outcome alert_id actor _ db new (Alert.get alert_id db.alerts) refl (λ a found.
        change_status-Outcome now now_text alert_id new actor remark request_id a db found)

  meets :
      (a b : Alert R)
      → str_eq b.alert_id a.alert_id ≡ false
      → b.rule_id ≡ a.rule_id
      → b.correlation_key ≡ a.correlation_key
      → b.status ≡ a.status
      → violates a b ≡ true
  unfolding violates same_status
  meets a b other rule key status = ground (
    arith,
    other,
    eq_iff b.rule_id a.rule_id,
    eq_iff b.correlation_key a.correlation_key,
    eq_iff (alert_status_value b.status) (alert_status_value a.status),
    ap alert_status_value status,
  )

  update_conflict :
      (a b : Alert R) (rows : List (Alert R))
      → In b rows
      → str_eq b.alert_id a.alert_id ≡ false
      → b.rule_id ≡ a.rule_id
      → b.correlation_key ≡ a.correlation_key
      → b.status ≡ a.status
      → update_row a rows ≡ none
  unfolding update_row
  update_conflict a b rows i other rule key status =
      rw (any-true (violates a) b rows i (meets a b other rule key status))

  -- An alert whose history can be read cannot be moved, by a transition that is allowed, to a status that
  -- another alert of its rule and correlation key has: the commit raises an integrity error and the
  -- tables stay as they were.
  pub second_of_status :
      (now : ℕ) (now_text alert_id : String) (new : AlertStatus) (actor : String)
      (remark request_id : Option String) (db : Database R) (a b : Alert R)
      (history : List (Value R))
      → Alert.get alert_id db.alerts ≡ some a
      → same_status a.status new ≡ false
      → is_allowed a.status new ≡ true
      → listed_value (get "status_history" a.alert_metadata) ≡ some history
      → In b db.alerts
      → str_eq b.alert_id a.alert_id ≡ false
      → b.rule_id ≡ a.rule_id
      → b.correlation_key ≡ a.correlation_key
      → b.status ≡ new
      → update_alert_status now now_text alert_id new actor remark request_id db
        ≡ (integrity_error, db)
  unfolding update_alert_status change_status moved
  second_of_status now now_text alert_id new actor remark request_id db a b history found other ok
        listed i id rule key status =
      ap (on_alert (λ c. change_status now now_text new actor remark request_id c db) db) found
      ∙ rw (other, ok)
          (ap (with_history now now_text new actor remark request_id a db) listed
            ∙ ap
                (committed (moved now now_text new actor history a)
                  (audit_of actor remark request_id new a) db)
                (update_conflict (moved now now_text new actor history a) b db.alerts i id rule key
                  status))
