-- ===== src/Catalogue.antt =====
-- backend/app/api/routes/detections.py with `catalogue` of backend/app/detection/engine.py: the list of the rules
-- with what they have triggered. The names and descriptions of the rules are left out.
pub mod Triggers
use real_time_distributed_si.Prelude.{
  ℕ, String, Bool, true, false, not, Option, none, some, List, [], ◌∷◌, ◌++◌, ◌||◌, if◌then◌else◌,
  str_eq, mem, map, length, lower, underscored,
}
use real_time_distributed_si.Alert.{Alert}
use real_time_distributed_si.Detection.{Detector}
use real_time_distributed_si.Query.{Database}
use real_time_distributed_si.Query.Sums.{sum_of}
use real_time_distributed_si.Query.Alerts.{Activity, rule_activity}

pub record RuleEntry : Type 0 where
  pub rule_id : String
  pub enabled : Bool

-- `DetectionEngine.catalogue`, at the set of disabled rules
unfoldable pub catalogue : {R S : Type 0} → List (Detector R S) → List String → List RuleEntry
catalogue ds disabled =
    map (λ d. record { rule_id = d.rule_id; enabled = not (mem d.rule_id disabled) }) ds

-- `_STATISTICAL_RULES`, at `settings.enable_ml`
abbrev pub statistical_rules : Bool → List RuleEntry
statistical_rules enable_ml =
    record { rule_id = "ANOM-001"; enabled = true }
    ∷ record { rule_id = "ML-001"; enabled = enable_ml }
    ∷ []

-- the handles of `_slug`
abbrev pub handles : List (String × String)
handles =
    ("RULE-001", "SSH_BRUTE_FORCE")
    ∷ ("RULE-002", "PASSWORD_SPRAY")
    ∷ ("RULE-003", "PORT_SCAN")
    ∷ ("RULE-004", "PRIVILEGE_ESCALATION")
    ∷ ("RULE-005", "SUSPICIOUS_SQL")
    ∷ ("RULE-006", "DATA_EXFILTRATION")
    ∷ ("RULE-007", "AUTH_ANOMALY")
    ∷ ("ANOM-001", "TRAFFIC_ANOMALY")
    ∷ ("ML-001", "ISOLATION_FOREST")
    ∷ []

-- `d.get(k)` on a dict of texts
unfoldable pub dict_get : {V : Type 0} → String → List (String × V) → Option V
dict_get k [] = none
dict_get k ((j, v) ∷ entries) = if str_eq k j then some v else dict_get k entries

-- `_slug`
unfoldable pub slug : String → String
unfolding dict_get
slug rule_id = elim (dict_get rule_id handles) [ none ↦ underscored rule_id | some h ↦ h ]

pub record Rule : Type 0 where
  pub entry : RuleEntry
  pub handle : String
  pub activity : Activity

-- the defaults of `act.get`
abbrev pub no_activity : Activity
no_activity = record { trigger_count = 0; active_count = 0; last_triggered = none }

unfoldable pub activity_at : List (String × Activity) → String → Activity
unfolding dict_get
activity_at activity rule_id = elim (dict_get rule_id activity) [
  | none ↦ no_activity
  | some act ↦ act
]

-- one entry of the loop
unfoldable pub with_activity : List (String × Activity) → RuleEntry → Rule
unfolding activity_at slug
with_activity activity e = record {
  entry = e;
  handle = slug e.rule_id;
  activity = activity_at activity e.rule_id;
}

-- the answer of `list_detections`
pub record Listing : Type 0 where
  pub rules : List Rule
  pub count : ℕ
  pub total_triggers : ℕ

-- `entry["rule_id"].lower() == rule_id.lower() or entry["handle"].lower() == rule_id.lower()`
unfoldable pub goes_by : String → Rule → Bool
goes_by name r = str_eq (lower r.entry.rule_id) (lower name) || str_eq (lower r.handle) (lower name)

-- the first that passes
unfoldable pub first_of : {A : Type 0} → (A → Bool) → List A → Option A
first_of p [] = none
first_of p (x ∷ xs) = let rest = first_of p xs in if p x then some x else rest

module _ {R S : Type 0} ⦃db : Database⦄ where
  -- `_catalogue_with_activity`; its engine is a new one, with no rule disabled
  unfoldable pub catalogue_with_activity : List (Detector R S) → Bool → List (Alert R) → List Rule
  unfolding catalogue with_activity
  catalogue_with_activity ds enable_ml alerts =
      map (with_activity (rule_activity alerts)) (catalogue ds [] ++ statistical_rules enable_ml)

  -- `list_detections`
  unfoldable pub list_detections : List (Detector R S) → Bool → List (Alert R) → Listing
  unfolding catalogue_with_activity sum_of
  list_detections ds enable_ml alerts =
      let rules = catalogue_with_activity ds enable_ml alerts in
      record {
        rules = rules;
        count = length rules;
        total_triggers = sum_of (λ r. r.activity.trigger_count) rules;
      }

  -- `get_detection`; none is the error 404
  unfoldable pub get_detection : String → List (Detector R S) → Bool → List (Alert R) → Option Rule
  unfolding catalogue_with_activity goes_by first_of
  get_detection name ds enable_ml alerts =
      first_of (goes_by name) (catalogue_with_activity ds enable_ml alerts)
