-- ===== src/Rule/DataExfiltration.antt =====
-- backend/app/detection/rules/data_exfiltration.py: RULE-006.
use real_time_distributed_si.Prelude.{
  ℕ, pos, String, Bool, Option, none, some, List, [], ◌∷◌, ◌&&◌, ◌||◌, not, if◌then◌else◌, ltb, fmt,
  str,
}
use real_time_distributed_si.Floats.{Floats, fadd, fmul, fdiv, flt, dec, of_ℕ, round, fixed, fmin}
use real_time_distributed_si.Enums.{
  EventType, DetectionKind, is_event_type, network_flow, firewall_allow, http_request, high, medium,
}
use real_time_distributed_si.Value.{Value, end, field, int, text, null}
use real_time_distributed_si.Event.{SecurityEvent}
use real_time_distributed_si.Redis.{Redis}
use real_time_distributed_si.Window.{incr_sum}
use real_time_distributed_si.Detection.{
  Detection, Detector, Env, Outcome, ok, raised, or_text, shown, truthy, listed,
}

pub record Params : Type 0 where
  pub bytes_threshold : ℕ
  pub window_seconds : ℕ

abbrev pub rule_id : String
rule_id = "RULE-006"

-- `_FLOW_EVENTS`
unfoldable pub is_flow_event : EventType → Bool
is_flow_event t =
    is_event_type t network_flow || (is_event_type t firewall_allow || is_event_type t http_request)

unfoldable pub applies_to : {R : Type 0} → SecurityEvent R → Bool
unfolding is_flow_event
applies_to e = is_flow_event e.event_type && (ltb 0 e.bytes_out && truthy e.source_ip)

abbrev port_text : Option ℕ → String
port_text none = "None"
port_text (some n) = str n

module _ {R : Type 0} ⦃F : Floats R⦄ where
  -- the loop of `_human_bytes` over the units that are left
  human_in : List String → R → String
  human_in [] n = fmt (fixed 1 n ∷ " PiB" ∷ [])
  human_in (unit ∷ units) n =
      let rest = human_in units (fdiv n (of_ℕ 1024)) in
      if flt n (of_ℕ 1024) then fmt (fixed 1 n ∷ " " ∷ unit ∷ []) else rest

  -- `_human_bytes`
  unfoldable pub human_bytes : R → String
  unfolding human_in
  human_bytes n = human_in ("B" ∷ "KiB" ∷ "MiB" ∷ "GiB" ∷ "TiB" ∷ []) n

  -- `ratio`
  abbrev ratio : Params → ℕ → R
  ratio p total = fdiv (of_ℕ total) (of_ℕ p.bytes_threshold)

  abbrev destination : Option String → Value R
  destination none = null
  destination (some ip) = text ip

  unfoldable pub detection : Params → SecurityEvent R → String → ℕ → Detection R
  detection p e ip total = record {
    rule_id = rule_id;
    kind = DetectionKind.rule;
    title = fmt ("High outbound volume from " ∷ ip ∷ []);
    description = fmt (
        human_bytes (of_ℕ total)
        ∷ " transferred from "
        ∷ ip
        ∷ " to "
        ∷ or_text e.destination_ip "multiple destinations"
        ∷ " within "
        ∷ str p.window_seconds
        ∷ "s (threshold "
        ∷ human_bytes (of_ℕ p.bytes_threshold)
        ∷ ")."
        ∷ []);
    severity = if not (flt (ratio p total) (of_ℕ 3)) then high else medium;
    confidence = round (fmin (dec 95 2) (fadd (dec 5 1) (fmul (dec 1 1) (ratio p total)))) 2;
    correlation_key = fmt ("srcip:" ∷ ip ∷ ":exfil" ∷ []);
    source_ip = e.source_ip;
    affected_host = some e.source;
    recommended_action =
        "Identify the destination and whether it is an approved endpoint. If not, isolate the host, capture the flow for analysis, and check for staging of archives on the source host.";
    evidence =
        record {
          event_id = e.event_id;
          timestamp = e.timestamp;
          summary = fmt (
              human_bytes (of_ℕ e.bytes_out)
              ∷ " -> "
              ∷ shown e.destination_ip
              ∷ ":"
              ∷ port_text e.destination_port
              ∷ []);
        }
        ∷ [];
    involved_users = [];
    involved_hosts = listed e.destination_ip;
    event_count_hint = 1;
    anomaly_score = none;
    metadata = field "window_bytes" (int (pos total)) (
        field "window_seconds" (int (pos p.window_seconds))
          (field "destination" (destination e.destination_ip) end));
    triggered_at = none;
  }

-- `entity`, the flow that is summed
unfoldable pub entity : String → Option String → String
entity ip destination = fmt (ip ∷ "->" ∷ or_text destination "any" ∷ [])

module _ {R S : Type 0} ⦃F : Floats R⦄ ⦃rd : Redis S⦄ where
  unfoldable pub evaluate_from :
      Params → SecurityEvent R → String → Env → S → Outcome (Option (Detection R)) × S
  evaluate_from p e ip env s =
      let (total, s') =
        incr_sum "exfil" (entity ip e.destination_ip) e.bytes_out env.token p.window_seconds
          e.timestamp s in
      (if ltb total p.bytes_threshold then ok none else ok (some (detection p e ip total)), s')

  unfoldable pub evaluate : Params → SecurityEvent R → Env → S → Outcome (Option (Detection R)) × S
  unfolding evaluate_from
  evaluate p e env s = elim e.source_ip [
    | none ↦ (raised "AssertionError", s)
    | some ip ↦ evaluate_from p e ip env s
  ]

  abbrev pub detector : Params → Detector R S
  detector p = record { rule_id = rule_id; applies_to = applies_to; evaluate = evaluate p }
