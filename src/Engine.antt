-- ===== src/Engine.antt =====
-- backend/app/detection/engine.py: the detectors in catalogue order, and their evaluation on one
-- event. The latency metric is left out. What a detector draws from outside comes from `env`, by
-- rule.
pub mod Seen
pub mod Labels
pub mod Catalogue
use real_time_distributed_si.Prelude.{
  ℕ, String, Bool, true, false, Option, none, some, List, [], ◌∷◌, not, if◌then◌else◌, mem, filter,
  str_eq,
}
use real_time_distributed_si.Floats.{Floats}
use real_time_distributed_si.Settings.{Settings}
use real_time_distributed_si.Value.{Value}
use real_time_distributed_si.Event.{SecurityEvent}
use real_time_distributed_si.Redis.{Redis}
use real_time_distributed_si.Detection.{Detection, Detector, Env, Outcome, ok, raised}
use real_time_distributed_si.Rule.BruteForce
use real_time_distributed_si.Rule.PasswordSpray
use real_time_distributed_si.Rule.PortScan
use real_time_distributed_si.Rule.PrivilegeEscalation
use real_time_distributed_si.Rule.SuspiciousSql
use real_time_distributed_si.Rule.DataExfiltration
use real_time_distributed_si.Rule.AuthAnomaly

-- `RULE_DETECTORS`, each with the parameters of `_resolve_params`
unfoldable pub rule_detectors :
    {R S : Type 0} ⦃F : Floats R⦄ ⦃rd : Redis S⦄
    → (Value R → String)
    → Settings R
    → List (Detector R S)
rule_detectors repr c =
    BruteForce.detector (record {
      max_failures = c.rule_bruteforce_max_failures;
      window_seconds = c.rule_bruteforce_window_seconds;
    })
    ∷ PasswordSpray.detector (record {
      unique_users = c.rule_spray_unique_users;
      window_seconds = c.rule_spray_window_seconds;
    })
    ∷ PortScan.detector (record {
      unique_ports = c.rule_portscan_unique_ports;
      window_seconds = c.rule_portscan_window_seconds;
    })
    ∷ PrivilegeEscalation.detector repr PrivilegeEscalation.default_params
    ∷ SuspiciousSql.detector repr SuspiciousSql.default_params
    ∷ DataExfiltration.detector (record {
      bytes_threshold = c.rule_exfil_bytes_threshold;
      window_seconds = c.rule_exfil_window_seconds;
    })
    ∷ AuthAnomaly.detector AuthAnomaly.default_params
    ∷ []

-- `set_enabled`, on the set of disabled rules
unfoldable pub set_enabled : String → Bool → List String → List String
set_enabled rule_id true disabled = filter (λ r. not (str_eq r rule_id)) disabled
set_enabled rule_id false disabled = if mem rule_id disabled then disabled else rule_id ∷ disabled

-- what one detector adds; a raise is logged and passed over
abbrev pub kept_result :
    {R : Type 0} → ℕ → Outcome (Option (Detection R)) → List (Detection R) → List (Detection R)
kept_result now (ok (some d)) rest = record d { triggered_at = some now } ∷ rest
kept_result now (ok none) rest = rest
kept_result now (raised e) rest = rest

module _ {R S : Type 0} where
  unfoldable pub runs : List String → Detector R S → SecurityEvent R → Bool
  runs disabled d e = if mem d.rule_id disabled then false else d.applies_to e

  -- the loop of `evaluate`
  unfoldable pub evaluate :
      List (Detector R S)
      → List String
      → (String → Env)
      → SecurityEvent R
      → S
      → List (Detection R) × S
  unfolding runs
  evaluate [] disabled env e s = ([], s)
  evaluate (d ∷ ds) disabled env e s =
      let skipped = evaluate ds disabled env e s in
      let (result, s') = d.evaluate e (env d.rule_id) s in
      let after = evaluate ds disabled env e s' in
      if runs disabled d e
      then (kept_result (env d.rule_id).wall result after.0, after.1)
      else skipped
