-- ===== src/Rule/AuthAnomaly.antt =====
-- backend/app/detection/rules/auth_anomaly.py: RULE-007.
use real_time_distributed_si.Prelude.{
  ℕ, ◌+◌, ◌-◌, String, Bool, Option, none, some, [], ◌∷◌, ◌&&◌, ◌||◌, not, if◌then◌else◌, ltb, leb,
  fmt, str, sorted, take, length, lower, is_nonempty,
}
use real_time_distributed_si.Floats.{Floats, fadd, fmul, dec, of_ℕ, round, fixed, fmin}
use real_time_distributed_si.Enums.{
  EventStatus, DetectionKind, is_event_type, has_status, event_status_value, auth_success,
  auth_failure, success, high, medium,
}
use real_time_distributed_si.Value.{end, field, texts}
use real_time_distributed_si.Event.{SecurityEvent}
use real_time_distributed_si.Redis.{Redis}
use real_time_distributed_si.Window.{WindowResult, add_and_measure, span}
use real_time_distributed_si.Detection.{
  Detection, Detector, Env, Outcome, ok, raised, seconds, truthy,
}

pub record Params : Type 0 where
  pub distinct_ips : ℕ
  pub window_seconds : ℕ

abbrev pub default_params : Params
default_params = record { distinct_ips = 4; window_seconds = 300 }

abbrev pub rule_id : String
rule_id = "RULE-007"

unfoldable pub applies_to : {R : Type 0} → SecurityEvent R → Bool
applies_to e =
    (is_event_type e.event_type auth_success || is_event_type e.event_type auth_failure)
    && (truthy e.username && truthy e.source_ip)

abbrev status_text : Option EventStatus → String
status_text none = "None"
status_text (some st) = event_status_value st

-- successes and failures are kept in two windows
unfoldable pub bucket : Option EventStatus → String
bucket st = if has_status st success then "authgeo_ok" else "authgeo_fail"

module _ {R : Type 0} ⦃F : Floats R⦄ where
  unfoldable pub detection : Params → SecurityEvent R → String → String → WindowResult → Detection R
  detection p e user ip res =
      let ips = length res.unique_values in
      record {
        rule_id = rule_id;
        kind = DetectionKind.rule;
        title = fmt ("Unusual authentication pattern for '" ∷ user ∷ "'" ∷ []);
        description = fmt (
            "Account '"
            ∷ user
            ∷ "' authenticated *successfully* from "
            ∷ str ips
            ∷ " distinct source IPs within "
            ∷ fixed {R = R} 0 (seconds (span res))
            ∷ "s (latest from "
            ∷ ip
            ∷ ") — possible session hijack or shared/compromised credentials."
            ∷ []);
        severity = if leb (p.distinct_ips + 2) ips then high else medium;
        confidence =
            round (fmin (dec 92 2) (fadd (dec 5 1) (fmul (dec 1 1) (of_ℕ (ips - p.distinct_ips)))))
              2;
        correlation_key = fmt ("user:" ∷ lower user ∷ ":authgeo" ∷ []);
        source_ip = some ip;
        affected_host = some e.source;
        recommended_action =
            "Contact the account owner to confirm the sessions. If unrecognised, invalidate active sessions, reset credentials, and review what the account accessed during the window.";
        evidence =
            record {
              event_id = e.event_id;
              timestamp = e.timestamp;
              summary = fmt (user ∷ " login from " ∷ ip ∷ " (" ∷ status_text e.status ∷ ")" ∷ []);
            }
            ∷ [];
        involved_users = user ∷ [];
        involved_hosts = e.source ∷ [];
        event_count_hint = 1;
        anomaly_score = none;
        metadata = field "distinct_source_ips" (texts (take 20 (sorted res.unique_values))) end;
        triggered_at = none;
      }

module _ {R S : Type 0} ⦃F : Floats R⦄ ⦃rd : Redis S⦄ where
  unfoldable pub evaluate_from :
      Params → SecurityEvent R → String → String → Env → S → Outcome (Option (Detection R)) × S
  evaluate_from p e user ip env s =
      let (res, s') =
        add_and_measure (bucket e.status) (lower user) ip env.token p.window_seconds e.timestamp
          s in
      (
        if not (has_status e.status success)
            then ok none
            else if ltb (length res.unique_values) p.distinct_ips
            then ok none
            else ok (some (detection p e user ip res)),
        s',
      )

  abbrev pub asserted :
      Params
      → SecurityEvent R
      → Env
      → S
      → Option String
      → Option String
      → Outcome (Option (Detection R)) × S
  asserted p e env s (some user) (some ip) =
      if is_nonempty user && is_nonempty ip
      then evaluate_from p e user ip env s
      else (raised "AssertionError", s)
  asserted p e env s user ip = (raised "AssertionError", s)

  -- the assertion takes an empty text for a missing one
  unfoldable pub evaluate : Params → SecurityEvent R → Env → S → Outcome (Option (Detection R)) × S
  unfolding evaluate_from
  evaluate p e env s = asserted p e env s e.username e.source_ip

  abbrev pub detector : Params → Detector R S
  detector p = record { rule_id = rule_id; applies_to = applies_to; evaluate = evaluate p }
