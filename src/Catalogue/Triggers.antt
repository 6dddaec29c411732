-- ===== src/Catalogue/Triggers.antt =====
-- `list_detections` of backend/app/api/routes/detections.py against the table of alerts.
use real_time_distributed_si.Prelude.{
  ℕ, ◌≡◌, refl, sym, ap, ◌∙◌, String, Bool, false, Option, none, some, List, [], ◌∷◌, ◌++◌,
  if◌then◌else◌, str_eq, eq_iff, mem, map, filter, length, All, inl, inr, arith, Bool-cases,
}
use mathlib.Core.Path.{subst}
use real_time_distributed_si.Value.{Value}
use real_time_distributed_si.Floats.{Floats}
use real_time_distributed_si.Redis.{Redis}
use real_time_distributed_si.Settings.{Settings}
use real_time_distributed_si.Alert.{Alert, is_open_row}
use real_time_distributed_si.Engine.{rule_detectors}
use real_time_distributed_si.Query.{Database, group_by}
use real_time_distributed_si.Query.Sums.{sum_of, sum_of-map, sum_of-ext, sum_of-swap, sum_of-count}
use real_time_distributed_si.Query.Perms.{sum_of-perm}
use real_time_distributed_si.Query.Groups.{sum_of-counts}
use real_time_distributed_si.Query.Keys.{text_key}
use real_time_distributed_si.Query.Alerts.{Activity, activity_of, rule_activity}
use real_time_distributed_si.Query.Breakdown.{IsActivity, of_rule, rule_activity_lem}
use real_time_distributed_si.Catalogue.{
  RuleEntry, catalogue, statistical_rules, dict_get, no_activity, activity_at, Rule, with_activity,
  catalogue_with_activity, list_detections,
}

-- a text is once in a list without repetition, or not at all
abbrev pub NoRepeat : List String → Type 0
NoRepeat [] = Unit
NoRepeat (k ∷ ks) = (mem k ks ≡ false) × NoRepeat ks

sum_of-mem :
    (x : String) (ks : List String)
    → NoRepeat ks
    → sum_of (λ k. if str_eq k x then 1 else 0) ks ≡ (if mem x ks then 1 else 0)
unfolding sum_of mem
sum_of-mem x [] once = refl
sum_of-mem x (k ∷ ks) (new, once) = ground (arith, new, sum_of-mem x ks once, eq_iff k x)

-- a key without an entry adds nothing
sum_of-absent :
    {V : Type 0} (f : V → ℕ) (k : String) (entries : List (String × V))
    → dict_get k entries ≡ none
    → sum_of (λ (e : String × V). if str_eq k e.0 then f e.1 else 0) entries ≡ 0
unfolding dict_get sum_of
sum_of-absent f k [] h = refl
sum_of-absent f k ((j, v) ∷ entries) h = ground (arith, h, sum_of-absent f k entries)

dict_get-All :
    {V : Type 0} (P : String → V → Type 0) (k : String) (entries : List (String × V)) (v : V)
    → All (λ (e : String × V). P e.0 e.1) entries
    → dict_get k entries ≡ some v
    → P k v
unfolding dict_get
dict_get-All P k [] v h e = absurd (ground arith)
dict_get-All P k ((j, w) ∷ entries) v (here, later) e = elim (Bool-cases (str_eq k j)) [
  | inl at ↦
      let found : some w ≡ some v = sym (rw at refl) ∙ e in
      let w≡v : w ≡ v = cc in subst (P k) w≡v (subst (λ i. P i w) (sym ((eq_iff k j).0 at)) here)
  | inr off ↦ dict_get-All P k entries v later (sym (rw off refl) ∙ e)
]

module _ {R : Type 0} ⦃db : Database⦄ where
  -- the counts of the rules that pass a test add up to the alerts of these rules
  triggers-counts :
      (p : String → Bool) (rows : List (Alert R))
      → sum_of
          (λ (e : String × Activity). if p e.0 then e.1.trigger_count else 0)
          (rule_activity rows)
        ≡ length (filter (λ a. p a.rule_id) rows)
  unfolding rule_activity activity_of
  triggers-counts p rows =
      let groups = group_by (λ (a : Alert R). a.rule_id) rows in
      sum_of-map _ _ (db.unordered groups)
      ∙ sum_of-perm _ (db.unordered-perm groups)
      ∙ sum_of-counts (λ a. a.rule_id) p rows

  no_alerts : (rows : List (Alert R)) → length rows ≡ 0 → rows ≡ []
  no_alerts [] h = refl
  no_alerts (a ∷ rows) h = absurd (omega (arith, h))

  none-IsActivity : (rows : List (Alert R)) → rows ≡ [] → IsActivity rows no_activity
  unfolding filter
  none-IsActivity rows e = record {
    triggered = ap length (sym e);
    active = ap (λ r. length (filter is_open_row r)) (sym e);
    last = e;
  }

  -- what is shown of a rule is the activity of its alerts, where it has none too
  activity_at-IsActivity :
      (rows : List (Alert R)) (k : String)
      → IsActivity (of_rule k rows) (activity_at (rule_activity rows) k)
  unfolding activity_at
  activity_at-IsActivity rows k = found (dict_get k (rule_activity rows)) refl
    where
      found :
          (o : Option Activity)
          → dict_get k (rule_activity rows) ≡ o
          → IsActivity (of_rule k rows) (elim o [ none ↦ no_activity | some act ↦ act ])
      found none e = none-IsActivity (of_rule k rows) (
          no_alerts _ (
            sym (triggers-counts (λ i. str_eq k i) rows)
            ∙ sum_of-absent (λ a. a.trigger_count) k (rule_activity rows) e))
      found (some act) e =
          dict_get-All (λ i a. IsActivity (of_rule i rows) a) k (rule_activity rows) act
            (rule_activity_lem rows).0 e

  shown-IsActivity :
      (rows : List (Alert R)) (entries : List RuleEntry)
      → All
          (λ (r : Rule). IsActivity (of_rule r.entry.rule_id rows) r.activity)
          (map (with_activity (rule_activity rows)) entries)
  unfolding with_activity
  shown-IsActivity rows [] = tt
  shown-IsActivity rows (e ∷ entries) =
      (activity_at-IsActivity rows e.rule_id, shown-IsActivity rows entries)

  -- the counts of rules without repetition add up to the alerts of these rules
  sum_of-triggers :
      (rows : List (Alert R)) (entries : List RuleEntry)
      → NoRepeat (map (λ e. e.rule_id) entries)
      → sum_of (λ r. r.activity.trigger_count) (map (with_activity (rule_activity rows)) entries)
        ≡ length (filter (λ a. mem a.rule_id (map (λ e. e.rule_id) entries)) rows)
  unfolding with_activity
  sum_of-triggers rows entries once =
      let ids = map (λ (e : RuleEntry). e.rule_id) entries in
      let unit : String → Alert R → ℕ = λ k a. if str_eq k a.rule_id then 1 else 0 in
      sum_of-map (λ r. r.activity.trigger_count) (with_activity (rule_activity rows)) entries
      ∙ sum_of-ext _ _ entries (λ e. (activity_at-IsActivity rows e.rule_id).triggered)
      ∙ sym (sum_of-map (λ k. length (of_rule k rows)) (λ (e : RuleEntry). e.rule_id) entries)
      ∙ sum_of-ext _ _ ids (λ k. sym (sum_of-count (λ a. str_eq k a.rule_id) rows))
      ∙ sum_of-swap unit ids rows
      ∙ sum_of-ext _ _ rows (λ a. sum_of-mem a.rule_id ids once)
      ∙ sum_of-count (λ a. mem a.rule_id ids) rows

-- the rules of the program
abbrev pub rule_ids : List String
rule_ids =
    "RULE-001" ∷ "RULE-002" ∷ "RULE-003" ∷ "RULE-004" ∷ "RULE-005" ∷ "RULE-006" ∷ "RULE-007"
    ∷ "ANOM-001" ∷ "ML-001" ∷ []

rule_ids-NoRepeat : NoRepeat rule_ids
unfolding mem
rule_ids-NoRepeat = (refl, (refl, (refl, (refl, (refl, (refl, (refl, (refl, (refl, tt)))))))))

-- The list of detections has nine rules, each with the number of its alerts, the number of its active
-- ones and the time at which one was last seen, where it has no alert too; and its total is the number
-- of all alerts of these nine rules.
pub list_detections_lem :
    {R : Type 0} ⦃F : Floats R⦄ ⦃db : Database⦄ (S : Type 0) ⦃rd : Redis S⦄
    (repr : Value R → String) (c : Settings R) (enable_ml : Bool) (rows : List (Alert R))
    → All
        (λ (r : Rule). IsActivity (of_rule r.entry.rule_id rows) r.activity)
        (list_detections (rule_detectors {S = S} repr c) enable_ml rows).rules
      × ((list_detections (rule_detectors {S = S} repr c) enable_ml rows).count ≡ 9)
      × ((list_detections (rule_detectors {S = S} repr c) enable_ml rows).total_triggers
          ≡ length (filter (λ a. mem a.rule_id rule_ids) rows))
unfolding list_detections catalogue_with_activity catalogue rule_detectors mem
list_detections_lem S repr c enable_ml rows =
    let entries = catalogue (rule_detectors {S = S} repr c) [] ++ statistical_rules enable_ml in
    (shown-IsActivity rows entries, refl, sum_of-triggers rows entries rule_ids-NoRepeat)
