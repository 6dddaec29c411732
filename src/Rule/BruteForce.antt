-- ===== src/Rule/BruteForce.antt =====
-- backend/app/detection/rules/brute_force.py: RULE-001.
pub mod Threshold
pub mod Burst
use real_time_distributed_si.Prelude.{
  ℕ, pos, ◌-◌, String, Bool, true, false, Option, none, some, [], ◌∷◌, ◌&&◌, ◌||◌, not,
  if◌then◌else◌, ltb, fmt, str, filter, sorted, length, str_eq, is_nonempty,
}
use real_time_distributed_si.Floats.{Floats, fadd, fmul, dec, of_ℕ, round, fixed, fmin}
use real_time_distributed_si.Enums.{
  EventStatus, DetectionKind, is_event_type, event_type_value, event_status_value, auth_failure,
  auth_success, critical, high,
}
use real_time_distributed_si.Value.{Value, end, field, int, float, bool, text, null}
use real_time_distributed_si.Event.{SecurityEvent}
use real_time_distributed_si.Redis.{Redis}
use real_time_distributed_si.Window.{WindowResult, measure, add_and_measure, span}
use real_time_distributed_si.Detection.{
  Detection, Detector, Env, Outcome, ok, raised, or_text, shown, seconds, is_given,
}

pub record Params : Type 0 where
  pub max_failures : ℕ
  pub window_seconds : ℕ

abbrev pub rule_id : String
rule_id = "RULE-001"

abbrev is_user : String → Bool
is_user v = is_nonempty v && not (str_eq v "-")

module _ {R : Type 0} where
  unfoldable pub applies_to : SecurityEvent R → Bool
  applies_to e =
      (is_event_type e.event_type auth_failure
        || (is_event_type e.event_type auth_success && is_given e.source_ip))
      && is_given e.source_ip

  abbrev status_field : Option EventStatus → Value R
  status_field none = null
  status_field (some s) = text (event_status_value s)

module _ {R : Type 0} ⦃F : Floats R⦄ where
  unfoldable pub confidence : Params → ℕ → Bool → R
  confidence p count breached =
      let base =
        fmin (dec 99 2) (fadd (dec 6 1) (fmul (dec 2 2) (of_ℕ (count - p.max_failures)))) in
      if breached then fmin (dec 99 2) (fadd base (dec 15 2)) else base

  unfoldable pub detection : Params → SecurityEvent R → String → WindowResult → Bool → Detection R
  unfolding confidence
  detection p e ip res breached = record {
    rule_id = rule_id;
    kind = DetectionKind.rule;
    title = fmt ("Brute-force login activity from " ∷ ip ∷ []);
    description = fmt (
        str res.count
        ∷ " failed authentication attempts from "
        ∷ ip
        ∷ " within "
        ∷ fixed {R = R} 0 (seconds (span res))
        ∷ "s (threshold "
        ∷ str p.max_failures
        ∷ "/"
        ∷ str p.window_seconds
        ∷ "s), targeting "
        ∷ str (length res.unique_values)
        ∷ " distinct account(s)."
        ∷ (if breached then " A subsequent successful login was observed." else "")
        ∷ []);
    severity = if breached then critical else high;
    confidence = round (confidence p res.count breached) 2;
    correlation_key = fmt ("srcip:" ∷ ip ∷ []);
    source_ip = e.source_ip;
    affected_host = some e.source;
    recommended_action =
        "Investigate the source IP. If not attributable to a known scanner or user, block it at the firewall and force a credential reset for any account that authenticated successfully from it.";
    evidence =
        record {
          event_id = e.event_id;
          timestamp = e.timestamp;
          summary = fmt (
              event_type_value e.event_type
              ∷ " user="
              ∷ shown e.username
              ∷ " host="
              ∷ e.source
              ∷ []);
        }
        ∷ [];
    involved_users = sorted (filter is_user res.unique_values);
    involved_hosts = e.source ∷ [];
    event_count_hint = res.count;
    anomaly_score = none;
    metadata = field "window_seconds" (int (pos p.window_seconds)) (
        field "span_seconds" (float (round (seconds (span res)) 1))
          (field "account_breached" (bool breached) (field "status" (status_field e.status) end)));
    triggered_at = none;
  }

  -- the return after the two branches of `evaluate`
  unfoldable pub verdict :
      Params → SecurityEvent R → String → WindowResult → Bool → Outcome (Option (Detection R))
  verdict p e ip res breached =
      if ltb res.count p.max_failures then ok none else ok (some (detection p e ip res breached))

module _ {R S : Type 0} ⦃F : Floats R⦄ ⦃rd : Redis S⦄ where
  unfoldable pub evaluate_from :
      Params → SecurityEvent R → String → Env → S → Outcome (Option (Detection R)) × S
  unfolding verdict
  evaluate_from p e ip env s =
      if is_event_type e.event_type auth_success
      then (let (res, s') = measure "bruteforce" ip p.window_seconds env.wall s in
          (verdict p e ip res true, s'))
      else (let (res, s') =
            add_and_measure "bruteforce" ip (or_text e.username "-") env.token p.window_seconds
              e.timestamp s in
          (verdict p e ip res false, s'))

  unfoldable pub evaluate : Params → SecurityEvent R → Env → S → Outcome (Option (Detection R)) × S
  unfolding evaluate_from
  evaluate p e env s = elim e.source_ip [
    | none ↦ (raised "AssertionError", s)
    | some ip ↦ evaluate_from p e ip env s
  ]

  abbrev pub detector : Params → Detector R S
  detector p = record { rule_id = rule_id; applies_to = applies_to; evaluate = evaluate p }
