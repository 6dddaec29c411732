-- ===== src/Rule/PrivilegeEscalation.antt =====
-- backend/app/detection/rules/privilege_escalation.py: RULE-004. It keeps no window. `str` of a
-- JSON array or object, which only an odd `user_role` needs, is the parameter `repr`.
use real_time_distributed_si.Prelude.{
  ℕ, String, Bool, true, false, Option, none, some, List, [], ◌∷◌, ◌++◌, ◌&&◌, ◌||◌, not,
  if◌then◌else◌, ltb, leb, fmt, any, mem, map, lower, capitalize, join, contains, str_take,
}
use real_time_distributed_si.Floats.{Floats, fadd, dec, round, fmin}
use real_time_distributed_si.Enums.{
  DetectionKind, is_event_type, is_source_type, has_status, privilege_escalation, config_change,
  web_server, firewall, dns, failure, high,
}
use real_time_distributed_si.Value.{Value, end, field, get, text, texts}
use real_time_distributed_si.Value.Convert.{value_text}
use real_time_distributed_si.Event.{SecurityEvent, hour}
use real_time_distributed_si.Detection.{
  Detection, Detector, Env, Outcome, ok, or_text, shown, truthy, listed,
}

pub record Params : Type 0 where
  pub privileged_roles : List String

abbrev pub default_params : Params
default_params = record { privileged_roles = "admin" ∷ "root" ∷ "sudo" ∷ "administrator" ∷ [] }

abbrev pub rule_id : String
rule_id = "RULE-004"

-- `_SUSPICIOUS_ACTIONS`
abbrev pub suspicious_actions : List String
suspicious_actions =
    "sudo" ∷ "su " ∷ "usermod" ∷ "useradd" ∷ "passwd" ∷ "chmod 777" ∷ "setuid" ∷ "visudo" ∷ "pkexec"
    ∷ "runas" ∷ "net localgroup administrators" ∷ []

-- `any(s in haystack for s in _SUSPICIOUS_ACTIONS)`
unfoldable pub is_suspicious : String → Bool
is_suspicious haystack = any (λ s. contains haystack s) suspicious_actions

-- `hour in _OFF_HOURS`: 22:00 to 05:59
unfoldable pub off_hours : ℕ → Bool
off_hours h = (leb 22 h && ltb h 24) || ltb h 6

unfoldable pub applies_to : {R : Type 0} → SecurityEvent R → Bool
applies_to e =
    if is_event_type e.event_type privilege_escalation || is_event_type e.event_type config_change
    then true
    else if is_source_type e.source_type web_server
        || (is_source_type e.source_type firewall || is_source_type e.source_type dns)
    then false
    else if not (truthy e.username)
    then false
    else is_suspicious (lower (fmt (or_text e.action "" ∷ " " ∷ or_text e.message "" ∷ [])))

-- the action text that `evaluate` inspects
unfoldable pub action_text : {R : Type 0} → SecurityEvent R → String
action_text e = lower (or_text e.action (or_text e.message ""))

abbrev role_text : {R : Type 0} ⦃F : Floats R⦄ → (Value R → String) → Option (Value R) → String
role_text repr none = ""
role_text repr (some v) = value_text repr v

-- the four signals of the score
pub record Signals : Type 0 where
  pub low_priv_actor : Bool
  pub is_off_hours : Bool
  pub explicit_flag : Bool
  pub failed : Bool

unfoldable pub reasons : Signals → Option String → List String
reasons g username =
    (if g.low_priv_actor
      then fmt ("actor '" ∷ shown username ∷ "' is not a known privileged account" ∷ []) ∷ []
      else [])
    ++ (if g.is_off_hours then "action occurred outside business hours" ∷ [] else [])
    ++ (if g.explicit_flag then "host reported an explicit privilege-escalation event" ∷ [] else [])
    ++ (if g.failed then "the escalation attempt failed" ∷ [] else [])

module _ {R : Type 0} ⦃F : Floats R⦄ (repr : Value R → String) where
  unfoldable pub actor_role : SecurityEvent R → String
  actor_role e = lower (role_text repr (get "user_role" e.metadata))

  unfoldable pub signals : Params → SecurityEvent R → Signals
  unfolding actor_role
  signals p e =
      let roles = map lower p.privileged_roles in
      record {
        low_priv_actor =
            not (mem (actor_role e) roles || mem (lower (or_text e.username "")) roles);
        is_off_hours = off_hours (hour e.timestamp);
        explicit_flag = is_event_type e.event_type privilege_escalation;
        failed = has_status e.status failure;
      }

  abbrev added : Bool → R → R → R
  added b weight score = if b then fadd score weight else score

  unfoldable pub score : Signals → R
  score g = added g.failed (dec 5 2) (
      added g.explicit_flag (dec 2 1)
        (added g.is_off_hours (dec 15 2) (added g.low_priv_actor (dec 35 2) (dec 4 1))))

  unfoldable pub detection : SecurityEvent R → Signals → Detection R
  detection e g = record {
    rule_id = rule_id;
    kind = DetectionKind.rule;
    title =
        fmt ("Privilege escalation by " ∷ or_text e.username "unknown" ∷ " on " ∷ e.source ∷ []);
    description = fmt (
        "User '"
        ∷ shown e.username
        ∷ "' performed administrative action '"
        ∷ or_text e.action (str_take 120 (action_text e))
        ∷ "' on "
        ∷ e.source
        ∷ ". "
        ∷ capitalize (join "; " (reasons g e.username))
        ∷ "."
        ∷ []);
    severity = high;
    confidence = round (fmin (dec 95 2) (score g)) 2;
    correlation_key = fmt ("host:" ∷ e.source ∷ ":user:" ∷ shown e.username ∷ ":privesc" ∷ []);
    source_ip = e.source_ip;
    affected_host = some e.source;
    recommended_action =
        "Verify the change with the account owner and change-management records. If unsanctioned, revoke the elevated access, preserve the host for forensics, and rotate credentials.";
    evidence =
        record {
          event_id = e.event_id;
          timestamp = e.timestamp;
          summary = fmt (
              shown e.username
              ∷ "@"
              ∷ e.source
              ∷ ": "
              ∷ or_text e.action (str_take 80 (action_text e))
              ∷ []);
        }
        ∷ [];
    involved_users = listed e.username;
    involved_hosts = e.source ∷ [];
    event_count_hint = 1;
    anomaly_score = none;
    metadata =
        field "reasons" (texts (reasons g e.username))
          (field "actor_role" (text (or_text (some (actor_role e)) "unknown")) end);
    triggered_at = none;
  }

  unfoldable pub verdict : Params → SecurityEvent R → Option (Detection R)
  verdict p e =
      let g = signals p e in
      if not (g.explicit_flag || is_suspicious (action_text e))
      then none
      else if not (g.low_priv_actor || (g.is_off_hours || g.explicit_flag))
      then none
      else some (detection e g)

  unfoldable pub evaluate :
      {S : Type 0} → Params → SecurityEvent R → Env → S → Outcome (Option (Detection R)) × S
  unfolding verdict
  evaluate p e env s = (ok (verdict p e), s)

  abbrev pub detector : {S : Type 0} → Params → Detector R S
  detector p = record { rule_id = rule_id; applies_to = applies_to; evaluate = evaluate p }
