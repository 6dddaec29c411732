-- ===== src/Correlation/Total.antt =====
-- backend/app/detection/correlation.py: every call finds or makes the one active alert of its rule
-- and key, and no flush of it can fail.
use real_time_distributed_si.Prelude.{
  ℕ, ◌+◌, ◌≤◌, String, true, false, ◌≡◌, refl, ap, ◌∙◌, none, some, List, [], ◌∷◌, ◌++◌, ◌&&◌,
  arith, if◌then◌else◌, str_eq, str_eq_refl, eq_iff, filter, length, All, All-append, In, In-filter,
  length-filter_pos, All-map, any-false, filter-append, filter-eq-nil, length-append, Option-cases,
  inl, inr, Bool-cases,
}
use mathlib.Core.Path.{subst₂}
use real_time_distributed_si.Floats.{Floats}
use real_time_distributed_si.Detection.{Detection}
use real_time_distributed_si.Alert.{
  Alert, Session, get_open_by_key, open_by_key, is_open_row, open_status, same_status, insert_row,
  replace_row, violates,
}
use real_time_distributed_si.Alert.Rows.{
  DistinctIds, OneActive, matches, length-filter-replace_row, replace_row-DistinctIds,
  insert-DistinctIds, All-replace_row, update_row_same, violates_other,
}
use real_time_distributed_si.Correlation.{Applied, apply, create, fold, or_now, applied, settle}

module _ {R : Type 0} ⦃F : Floats R⦄ ⦃q : Session R⦄ where
  no_row : (rows : List (Alert R)) → q.scalar rows ≡ none → rows ≡ []
  no_row [] h = refl
  no_row (a ∷ rows) h = absurd (q.scalar-cons a rows h)

  found_none :
      (rule_id key : String) (rows : List (Alert R))
      → get_open_by_key rule_id key rows ≡ none
      → open_by_key rule_id key rows ≡ []
  unfolding get_open_by_key
  found_none rule_id key rows h = no_row (open_by_key rule_id key rows) h

  found_some :
      (rule_id key : String) (rows : List (Alert R)) (a : Alert R)
      → get_open_by_key rule_id key rows ≡ some a
      → In a rows × (matches rule_id key a ≡ true)
  unfolding get_open_by_key
  found_some rule_id key rows a h =
      In-filter (matches rule_id key) a rows (q.scalar-in a (open_by_key rule_id key rows) h)

  window_of :
      (rule_id key : String) (a : Alert R)
      → matches rule_id key a ≡ true
      → (a.rule_id ≡ rule_id) × (a.correlation_key ≡ key) × (is_open_row a ≡ true)
  window_of rule_id key a h = ground (arith, eq_iff a.rule_id rule_id, eq_iff a.correlation_key key)

  -- what holds of the table after a call for that rule and key: no rule and key loses an active
  -- alert, and no id is new but the one that was given
  pub record Correlated (alert_id rule_id key : String) (before rows : List (Alert R))
      : Type 0 where
    pub ids :
        (x : String)
        → All (λ b. str_eq b.alert_id x ≡ false) before
        → str_eq alert_id x ≡ false
        → All (λ b. str_eq b.alert_id x ≡ false) rows
    pub kept : (r k : String) → length (open_by_key r k before) ≤ length (open_by_key r k rows)
    pub distinct : DistinctIds rows
    pub one : OneActive rows
    pub exactly : length (open_by_key rule_id key rows) ≡ 1

  pub create-open :
      (alert_id : String) (now : ℕ) (d : Detection R) → is_open_row (create alert_id now d) ≡ true
  unfolding create open_status same_status
  create-open alert_id now d = refl

  insert_flush :
      (a : Alert R) (rows : List (Alert R))
      → is_open_row a ≡ true
      → open_by_key a.rule_id a.correlation_key rows ≡ []
      → insert_row a rows ≡ some (rows ++ a ∷ [])
  unfolding insert_row open_by_key
  insert_flush a rows active empty = rw (
      any-false (violates a) rows (
        All-map _ _ (λ b miss. violates_other a b active miss) rows
          (filter-eq-nil (matches a.rule_id a.correlation_key) rows empty)))

  length-open_insert :
      (rule_id key : String) (a : Alert R) (rows : List (Alert R))
      → length (open_by_key rule_id key (rows ++ a ∷ []))
        ≡ length (open_by_key rule_id key rows) + (if matches rule_id key a then 1 else 0)
  unfolding open_by_key filter
  length-open_insert rule_id key a rows =
      ap length (filter-append (matches rule_id key) rows (a ∷ []))
      ∙ length-append (filter (matches rule_id key) rows) _
      ∙ ground arith

  matches_self : (a : Alert R) → is_open_row a ≡ true → matches a.rule_id a.correlation_key a ≡ true
  matches_self a active = rw (str_eq_refl a.rule_id, str_eq_refl a.correlation_key) active

  inserted :
      (a : Alert R) (rows : List (Alert R))
      → DistinctIds rows
      → OneActive rows
      → All (λ b. str_eq b.alert_id a.alert_id ≡ false) rows
      → is_open_row a ≡ true
      → open_by_key a.rule_id a.correlation_key rows ≡ []
      → Correlated a.alert_id a.rule_id a.correlation_key rows (rows ++ a ∷ [])
  inserted a rows ids one fresh active empty = record {
    ids = λ x h ne. All-append _ rows (a ∷ []) h (ne, tt);
    kept = λ r k. omega (arith, length-open_insert r k a rows);
    distinct = insert-DistinctIds a rows fresh ids;
    one = λ r k. elim (Bool-cases (matches r k a)) [
      | inl hit ↦
          rw (length-open_insert r k a rows, hit)
            (let (er, ek, _) = window_of r k a hit in
              omega (arith, ap length (subst₂ (λ x y. open_by_key x y rows ≡ []) er ek empty)))
      | inr miss ↦ rw (length-open_insert r k a rows, miss) (omega (arith, one r k))
    ];
    exactly =
        length-open_insert a.rule_id a.correlation_key a rows
        ∙ omega
            (arith, ap length empty, ap {B = ℕ} (λ b. if b then 1 else 0) (matches_self a active));
  }

  replaced :
      (alert_id : String) (a old : Alert R) (rows : List (Alert R))
      → DistinctIds rows
      → OneActive rows
      → In old rows
      → is_open_row old ≡ true
      → a.alert_id ≡ old.alert_id
      → a.rule_id ≡ old.rule_id
      → a.correlation_key ≡ old.correlation_key
      → a.status ≡ old.status
      → Correlated alert_id old.rule_id old.correlation_key rows (replace_row a rows)
  unfolding open_by_key
  replaced alert_id a old rows ids one i active id rule key status = record {
    ids = λ x h ne. All-replace_row a x rows h;
    kept = λ r k. omega (arith, same r k);
    distinct = replace_row-DistinctIds a rows ids;
    one = λ r k. omega (arith, one r k, same r k);
    exactly = omega (
      arith,
      one old.rule_id old.correlation_key,
      same old.rule_id old.correlation_key,
      length-filter_pos (matches old.rule_id old.correlation_key) old rows i
          (matches_self old active),
    );
  }
    where
      same :
          (r k : String)
          → length (filter (matches r k) (replace_row a rows)) ≡ length (filter (matches r k) rows)
      same r k =
          length-filter-replace_row (matches r k) a old rows ids i id
            (λ j. (str_eq (rule j) r && str_eq (key j) k) && open_status (status j))

  -- One call of the correlator on a table whose ids are distinct and that has at most one active alert
  -- for each rule and key, with an id for a new row that the table does not hold: no flush raises an
  -- integrity error, both conditions hold again, exactly one active alert stands for the rule and key
  -- of the detection, no rule and key loses an active alert, and no id is new but the given one.
  pub apply_total :
      (alert_id : String) (wall : ℕ) (d : Detection R) (rows : List (Alert R))
      → DistinctIds rows
      → OneActive rows
      → All (λ b. str_eq b.alert_id alert_id ≡ false) rows
      → (r : Applied R) × (apply alert_id wall d rows ≡ some r)
        × Correlated alert_id d.rule_id d.correlation_key rows r.rows
  unfolding apply fold create
  apply_total alert_id wall d rows ids one fresh =
      let now = or_now d.triggered_at wall in
      elim (Option-cases (get_open_by_key d.rule_id d.correlation_key rows)) [
        | inl missing ↦
            let empty = found_none d.rule_id d.correlation_key rows missing in
            let a = create alert_id now d in
            (
              record { alert = a; created = true; rows = rows ++ a ∷ [] },
              ap (settle alert_id now d rows) missing
                  ∙ ap (applied a true) (insert_flush a rows (create-open alert_id now d) empty),
              inserted a rows ids one fresh (create-open alert_id now d) empty,
            )
        | inr (old, found) ↦
            let (i, hit) = found_some d.rule_id d.correlation_key rows old found in
            let (er, ek, active) = window_of d.rule_id d.correlation_key old hit in
            let a = fold now d old in
            (
              record { alert = a; created = false; rows = replace_row a rows },
              ap (settle alert_id now d rows) found
                  ∙ ap (applied a false)
                      (update_row_same a old rows one i active refl refl refl refl),
              subst₂ (λ r k. Correlated alert_id r k rows (replace_row a rows)) er ek
                  (replaced alert_id a old rows ids one i active refl refl refl refl),
            )
      ]
