-- ===== src/Engine/Catalogue.antt =====
-- backend/app/detection/engine.py over the detectors of the catalogue: each labels its detections
-- with its own rule.
use real_time_distributed_si.Prelude.{
  ℤ, String, Bool, true, false, ◌≡◌, refl, Option, none, some, List, ◌&&◌, ◌||◌, arith, not,
  if◌then◌else◌, ltb, All, All-map, mem, str_eq, str_eq_refl, eq_iff, Bool-cases, Option-cases, inl,
  inr, is_nonempty,
}
use real_time_distributed_si.Floats.{Floats}
use real_time_distributed_si.Settings.{Settings}
use real_time_distributed_si.Enums.{is_event_type, has_status, auth_success, success}
use real_time_distributed_si.Value.{Value, get}
use real_time_distributed_si.Event.{SecurityEvent}
use real_time_distributed_si.Redis.{Redis}
use real_time_distributed_si.Window.{WindowResult}
use real_time_distributed_si.Detection.{Detection, Detector, Env, Outcome, ok}
use real_time_distributed_si.Rule.BruteForce
use real_time_distributed_si.Rule.PasswordSpray
use real_time_distributed_si.Rule.PortScan
use real_time_distributed_si.Rule.DataExfiltration
use real_time_distributed_si.Rule.AuthAnomaly
use real_time_distributed_si.Rule.PrivilegeEscalation
use real_time_distributed_si.Rule.SuspiciousSql
use real_time_distributed_si.Engine.Labels.{Labelled, Labels, Comes, evaluate-Comes}
use real_time_distributed_si.Engine.{rule_detectors, evaluate, runs, set_enabled}

brute_force-verdict :
    {R : Type 0} ⦃F : Floats R⦄ (p : BruteForce.Params) (e : SecurityEvent R) (ip : String)
    (res : WindowResult) (breached : Bool)
    → Labelled BruteForce.rule_id (BruteForce.verdict p e ip res breached)
unfolding BruteForce.verdict BruteForce.detection
brute_force-verdict p e ip res breached = elim (Bool-cases (ltb res.count p.max_failures)) [
  | inl few ↦ rw few tt
  | inr many ↦ rw many refl
]

-- the last step of a rule: nothing, or its detection
choice-Labelled :
    {R : Type 0} (rule_id : String) (b : Bool) (d : Detection R)
    → d.rule_id ≡ rule_id
    → Labelled rule_id (if b then ok none else ok (some d))
choice-Labelled rule_id true d h = tt
choice-Labelled rule_id false d h = h

two_tests-Labelled :
    {R : Type 0} (rule_id : String) (a b : Bool) (d : Detection R)
    → d.rule_id ≡ rule_id
    → Labelled rule_id (ok (if a then none else if b then none else some d))
two_tests-Labelled rule_id true b d h = tt
two_tests-Labelled rule_id false true d h = tt
two_tests-Labelled rule_id false false d h = h

found-Labelled :
    {R : Type 0} (rule_id : String) (a : Bool) (d : Detection R)
    → d.rule_id ≡ rule_id
    → Labelled rule_id (ok (if a then some d else none))
found-Labelled rule_id true d h = h
found-Labelled rule_id false d h = tt

unless-Labelled :
    {R : Type 0} (rule_id : String) (a : Bool) (o : Outcome (Option (Detection R)))
    → Labelled rule_id o
    → Labelled rule_id (if a then ok none else o)
unless-Labelled rule_id true o h = tt
unless-Labelled rule_id false o h = h

module _ {R S : Type 0} ⦃F : Floats R⦄ ⦃rd : Redis S⦄ where
  brute_force-Labels : (p : BruteForce.Params) → Labels (BruteForce.detector {R = R} {S = S} p)
  unfolding BruteForce.evaluate
  brute_force-Labels p = record {
    label = λ e env s. elim (Option-cases e.source_ip) [
      | inl n ↦ rw (n, BruteForce.evaluate) tt
      | inr (ip, g) ↦
          rw (g, BruteForce.evaluate)
            (elim (Bool-cases (is_event_type e.event_type auth_success)) [
              | inl login ↦ rw login (brute_force-verdict p e ip _ true)
              | inr fail ↦ rw fail (brute_force-verdict p e ip _ false)
            ])
    ];
  }

  password_spray-Labels :
      (p : PasswordSpray.Params) → Labels (PasswordSpray.detector {R = R} {S = S} p)
  unfolding PasswordSpray.evaluate PasswordSpray.detection
  password_spray-Labels p = record {
    label = λ e env s. elim (Option-cases e.source_ip) [
      | inl n ↦ rw (n, PasswordSpray.evaluate) tt
      | inr (ip, g) ↦ rw (g, PasswordSpray.evaluate) (choice-Labelled _ _ _ refl)
    ];
  }

  port_scan-Labels : (p : PortScan.Params) → Labels (PortScan.detector {R = R} {S = S} p)
  unfolding PortScan.evaluate PortScan.detection
  port_scan-Labels p = record {
    label = λ e env s. elim (Option-cases e.source_ip) [
      | inl n ↦ rw (n, PortScan.evaluate) tt
      | inr (ip, g) ↦
          rw (g, PortScan.evaluate)
            (elim (Option-cases e.destination_port) [
              | inl m ↦ rw (m, PortScan.evaluate) tt
              | inr (port, g') ↦ rw (g', PortScan.evaluate) (choice-Labelled _ _ _ refl)
            ])
    ];
  }

  data_exfiltration-Labels :
      (p : DataExfiltration.Params) → Labels (DataExfiltration.detector {R = R} {S = S} p)
  unfolding DataExfiltration.evaluate DataExfiltration.detection
  data_exfiltration-Labels p = record {
    label = λ e env s. elim (Option-cases e.source_ip) [
      | inl n ↦ rw (n, DataExfiltration.evaluate) tt
      | inr (ip, g) ↦ rw (g, DataExfiltration.evaluate) (choice-Labelled _ _ _ refl)
    ];
  }

  auth_anomaly-Labels : (p : AuthAnomaly.Params) → Labels (AuthAnomaly.detector {R = R} {S = S} p)
  unfolding AuthAnomaly.evaluate AuthAnomaly.detection
  auth_anomaly-Labels p = record { label = λ e env s. asserted e env s e.username e.source_ip }
    where
      asserted :
          (e : SecurityEvent R) (env : Env) (s : S) (user ip : Option String)
          → Labelled AuthAnomaly.rule_id (AuthAnomaly.asserted p e env s user ip).0
      asserted e env s none ip = tt
      asserted e env s (some user) none = tt
      asserted e env s (some user) (some ip) =
          elim (Bool-cases (is_nonempty user && is_nonempty ip)) [
            | inl given ↦ rw given (elim (Bool-cases (has_status e.status success)) [
              | inl fine ↦ rw fine (choice-Labelled _ _ _ refl)
              | inr failed ↦ rw failed tt
            ])
            | inr missing ↦ rw missing tt
          ]

  privilege_escalation-Labels :
      (repr : Value R → String) (p : PrivilegeEscalation.Params)
      → Labels (PrivilegeEscalation.detector {R = R} repr {S = S} p)
  unfolding PrivilegeEscalation.evaluate PrivilegeEscalation.detection
  privilege_escalation-Labels repr p = record {
    label = λ e env s.
        let g = PrivilegeEscalation.signals repr p e in
        two_tests-Labelled PrivilegeEscalation.rule_id
          (not (
            g.explicit_flag
            || PrivilegeEscalation.is_suspicious (PrivilegeEscalation.action_text e)))
          (not (g.low_priv_actor || (g.is_off_hours || g.explicit_flag)))
          (PrivilegeEscalation.detection repr e g) refl;
  }

  suspicious_sql-Labels :
      (repr : Value R → String) (p : SuspiciousSql.Params)
      → Labels (SuspiciousSql.detector {R = R} repr {S = S} p)
  unfolding SuspiciousSql.evaluate SuspiciousSql.detection
  suspicious_sql-Labels repr p = record {
    label = λ e env s.
        unless-Labelled _ _ _
          (checked e _ (SuspiciousSql.rows_value repr (get "rows_returned" e.metadata)));
  }
    where
      checked :
          (e : SecurityEvent R) (query : String) (o : Option ℤ)
          → Labelled SuspiciousSql.rule_id (SuspiciousSql.checked repr p e query o)
      checked e query none = tt
      checked e query (some rows) = found-Labelled _ _ _ refl

rule_detectors-Labels :
    {R : Type 0} (S : Type 0) ⦃F : Floats R⦄ ⦃rd : Redis S⦄ (repr : Value R → String)
    (c : Settings R)
    → All Labels (rule_detectors {R = R} {S = S} repr c)
unfolding rule_detectors
rule_detectors-Labels S repr c = (
  brute_force-Labels _,
  (
    password_spray-Labels _,
    (
      port_scan-Labels _,
      (
        privilege_escalation-Labels repr _,
        (suspicious_sql-Labels repr _, (data_exfiltration-Labels _, (auth_anomaly-Labels _, tt))),
      ),
    ),
  ),
)

-- Every detection that the engine returns for an event comes from a detector of the catalogue that is
-- enabled and applies to the event, carries the id of its rule, and is stamped with the clock.
pub evaluate_lem :
    {R S : Type 0} ⦃F : Floats R⦄ ⦃rd : Redis S⦄ (repr : Value R → String) (c : Settings R)
    (disabled : List String) (env : String → Env) (e : SecurityEvent R) (s : S)
    → All
        (Comes (rule_detectors {R = R} {S = S} repr c) disabled env e)
        (evaluate (rule_detectors {R = R} {S = S} repr c) disabled env e s).0
evaluate_lem {R} {S} repr c disabled env e s =
    evaluate-Comes disabled env e (rule_detectors repr c) s (rule_detectors-Labels S repr c)

mem-set_enabled :
    (r : String) (disabled : List String) → mem r (set_enabled r false disabled) ≡ true
unfolding set_enabled mem
mem-set_enabled r disabled = ground (arith, str_eq_refl r)

silent :
    {R S : Type 0} {ds : List (Detector R S)} (r : String) (disabled : List String)
    (env : String → Env) (e : SecurityEvent R) (x : Detection R)
    → Comes ds (set_enabled r false disabled) env e x
    → str_eq x.rule_id r ≡ false
unfolding runs
silent r disabled env e x c =
    ground (arith, c.ran, c.labelled, eq_iff x.rule_id r, mem-set_enabled r disabled)

-- Once a rule is disabled, an evaluation returns no detection of that rule, whatever the event and
-- whatever the windows hold.
pub disabled_silent :
    {R S : Type 0} ⦃F : Floats R⦄ ⦃rd : Redis S⦄ (repr : Value R → String) (c : Settings R)
    (r : String) (disabled : List String) (env : String → Env) (e : SecurityEvent R) (s : S)
    → All
        (λ x. str_eq x.rule_id r ≡ false)
        (evaluate (rule_detectors {R = R} {S = S} repr c) (set_enabled r false disabled) env e s).0
disabled_silent repr c r disabled env e s =
    All-map _ _ (λ x from. silent r disabled env e x from) _
      (evaluate_lem repr c (set_enabled r false disabled) env e s)
