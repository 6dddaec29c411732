-- ===== src/Query/Breakdown.antt =====
-- The counts by group of backend/app/storage/repositories.py: by event type, by severity, by time bucket,
-- and the activity of each rule.
use real_time_distributed_si.Prelude.{
  ℕ, inl, inr, ◌≤◌, ◌≡◌, refl, ap, sym, ◌∙◌, String, true, Option, some, none, List, [], ◌∷◌, arith,
  if◌then◌else◌, ltb, str_eq, All-map, filter, length, map, All, All-of_In, In, In-map, Bool-cases,
}
use mathlib.Core.List.{Permᴰ}
use mathlib.Core.Path.{subst}
use real_time_distributed_si.Enums.{event_type_value, severity_value}
use real_time_distributed_si.Event.{SecurityEvent}
use real_time_distributed_si.Alert.{Alert, is_open_row}
use real_time_distributed_si.Query.{Database, Key, IsDescending, group_by}
use real_time_distributed_si.Query.Page.{filter-true}
use real_time_distributed_si.Query.Perms.{sum_of-perm, In-perm}
use real_time_distributed_si.Query.Sums.{sum_of, sum_of-map, sum_of-count}
use real_time_distributed_si.Query.Groups.{sum_of-counts, sum_of-group_by, group_by-In}
use real_time_distributed_si.Query.Keys.{text_key, instant_key}
use real_time_distributed_si.Query.Events.{since_rows, event_type_breakdown, severity_breakdown}
use real_time_distributed_si.Query.Alerts.{
  Activity, activity_of, active_unit, max_of, rule_activity,
}

module _ {A K : Type 0} ⦃key : Key K⦄ (of : A → K) where
  -- each count is that of its key, and the counts add up to the number of rows
  pub record IsBreakdown (rows : List A) (result : List (K × ℕ)) : Type 0 where
    pub counts : All (λ r. r.1 ≡ length (filter (λ a. key.same r.0 (of a)) rows)) result
    pub adds_up : sum_of (λ r. r.1) result ≡ length rows

  abbrev pub sized : K × List A → K × ℕ
  sized g = (g.0, length g.1)

  pub group_by-IsBreakdown :
      (rows : List A) (result : List (K × ℕ))
      → Permᴰ result (map sized (group_by of rows))
      → IsBreakdown rows result
  group_by-IsBreakdown rows result p = record {
    counts = All-of_In _ result λ r i.
        let ((k, g), e, j) = In-map sized r _ (In-perm r p i) in
        subst (λ (s : K × ℕ). s.1 ≡ length (filter (λ a. key.same s.0 (of a)) rows)) (sym e)
          (ap length (group_by-In of k g rows j));
    adds_up =
        sum_of-perm _ p
        ∙ sum_of-map (λ r. r.1) sized (group_by of rows)
        ∙ sum_of-counts of (λ k. true) rows
        ∙ ap length (filter-true rows);
  }

module _ {R : Type 0} ⦃db : Database⦄ where
  -- Every count of the breakdown by event type is the number of events of that type since the instant,
  -- the largest count comes first, and the counts add up to the number of all events since the instant.
  pub event_type_breakdown_lem :
      (since : ℕ) (rows : List (SecurityEvent R))
      → IsBreakdown
          (λ e. event_type_value e.event_type)
          (since_rows since rows)
          (event_type_breakdown since rows)
        × IsDescending (λ r. r.1) (event_type_breakdown since rows)
  unfolding event_type_breakdown
  event_type_breakdown_lem since rows =
      (group_by-IsBreakdown _ _ _ (db.order_by_desc-perm _ _), db.order_by_desc-IsDescending _ _)

  -- Every count of the breakdown by severity is the number of events of that severity since the instant.
  pub severity_breakdown-IsBreakdown :
      (since : ℕ) (rows : List (SecurityEvent R))
      → IsBreakdown
          (λ e. severity_value e.severity)
          (since_rows since rows)
          (severity_breakdown since rows)
  unfolding severity_breakdown
  severity_breakdown-IsBreakdown since rows = group_by-IsBreakdown _ _ _ (db.unordered-perm _)

module _ {A : Type 0} where
  -- the largest key of rows
  abbrev pub IsMax : (A → ℕ) → List A → Option ℕ → Type 0
  IsMax k xs none = xs ≡ []
  IsMax k xs (some m) = All (λ x. k x ≤ m) xs × ((x : A) × In x xs × (k x ≡ m))

  IsMax-step :
      (k : A → ℕ) (x : A) (xs : List A) (o : Option ℕ)
      → IsMax k xs o
      → IsMax k
          (x ∷ xs)
          (elim o [ none ↦ some (k x) | some m ↦ some (if ltb m (k x) then k x else m) ])
  IsMax-step k x xs none e =
      ((omega arith, subst (All (λ y. k y ≤ k x)) (sym e) tt), (x, inl refl, refl))
  IsMax-step k x xs (some m) (below, (y, i, at)) = elim (Bool-cases (ltb m (k x))) [
    | inl up ↦
        let le : m ≤ k x = ground arith in
        subst (λ n. IsMax k (x ∷ xs) (some n)) (sym (rw up refl))
          ((omega arith, All-map _ _ (λ z h. omega (arith, h, le)) xs below), (x, inl refl, refl))
    | inr down ↦
        subst (λ n. IsMax k (x ∷ xs) (some n)) (sym (rw down refl))
          ((ground arith, below), (y, inr i, at))
  ]

  max_of-IsMax : (k : A → ℕ) (xs : List A) → IsMax k xs (max_of k xs)
  unfolding max_of
  max_of-IsMax k [] = refl
  max_of-IsMax k (x ∷ xs) = IsMax-step k x xs (max_of k xs) (max_of-IsMax k xs)

module _ {R : Type 0} ⦃db : Database⦄ where
  abbrev pub of_rule : String → List (Alert R) → List (Alert R)
  of_rule rule_id rows = filter (λ a. str_eq rule_id a.rule_id) rows

  -- what the activity of a rule says of the alerts
  pub record IsActivity (alerts : List (Alert R)) (activity : Activity) : Type 0 where
    pub triggered : activity.trigger_count ≡ length alerts
    pub active : activity.active_count ≡ length (filter is_open_row alerts)
    pub last : IsMax (λ a. a.last_seen) alerts activity.last_triggered

  activity_of-IsActivity : (alerts : List (Alert R)) → IsActivity alerts (activity_of alerts)
  unfolding activity_of active_unit
  activity_of-IsActivity alerts = record {
    triggered = refl;
    active = sum_of-count is_open_row alerts;
    last = max_of-IsMax (λ a. a.last_seen) alerts;
  }

  -- The activity of a rule has the number of its alerts, the number of its active ones and the time at
  -- which one was last seen; over all rules these numbers add up to all alerts and to all active ones.
  pub rule_activity_lem :
      (rows : List (Alert R))
      → All (λ r. IsActivity (of_rule r.0 rows) r.1) (rule_activity rows)
        × (sum_of (λ r. r.1.trigger_count) (rule_activity rows) ≡ length rows)
        × (sum_of (λ r. r.1.active_count) (rule_activity rows) ≡ length (filter is_open_row rows))
  unfolding rule_activity activity_of
  rule_activity_lem rows =
      let groups = group_by (λ (a : Alert R). a.rule_id) rows in
      let listed = db.unordered groups in
      let perm = db.unordered-perm groups in
      let entry : String × List (Alert R) → String × Activity = λ g. (g.0, activity_of g.1) in
      (
        All-of_In _ (map entry listed) (λ r i.
            let ((rid, g), e, j) = In-map entry r listed i in
            let whole = group_by-In (λ a. a.rule_id) rid g rows (In-perm _ perm j) in
            subst (λ (s : String × Activity). IsActivity (of_rule s.0 rows) s.1) (sym e)
              (subst (λ h. IsActivity h (activity_of g)) whole (activity_of-IsActivity g))),
        sum_of-map _ entry listed
            ∙ sum_of-perm _ perm
            ∙ sum_of-counts (λ a. a.rule_id) (λ k. true) rows
            ∙ ap length (filter-true rows),
        sum_of-map _ entry listed
            ∙ sum_of-perm _ perm
            ∙ sum_of-group_by (λ a. a.rule_id) active_unit rows
            ∙ sum_of-count is_open_row rows,
      )
