-- ===== src/Rule/PortScan.antt =====
-- backend/app/detection/rules/port_scan.py: RULE-003. The sample of ports is taken of the distinct
-- values in the order of `unique`, where Python leaves the order of a set open.
use real_time_distributed_si.Prelude.{
  ℕ, pos, ◌-◌, String, Bool, Option, none, some, List, [], ◌∷◌, ◌&&◌, ◌||◌, if◌then◌else◌, ltb, fmt,
  str, int_of, take, length,
}
use real_time_distributed_si.Floats.{Floats, fadd, fmul, fdiv, dec, of_ℕ, round, fixed, fmin, fmax}
use real_time_distributed_si.Enums.{
  EventType, DetectionKind, is_event_type, event_type_value, connection_attempt, firewall_deny,
  firewall_allow, network_flow, high,
}
use real_time_distributed_si.Value.{Values, nil, cons, end, field, int, list}
use real_time_distributed_si.Event.{SecurityEvent}
use real_time_distributed_si.Redis.{Redis}
use real_time_distributed_si.Window.{WindowResult, add_and_measure, span}
use real_time_distributed_si.Detection.{
  Detection, Detector, Env, Outcome, ok, raised, or_text, shown, seconds, is_given, listed,
}

pub record Params : Type 0 where
  pub unique_ports : ℕ
  pub window_seconds : ℕ

abbrev pub rule_id : String
rule_id = "RULE-003"

-- `_SCAN_EVENTS`
unfoldable pub is_scan_event : EventType → Bool
is_scan_event t =
    is_event_type t connection_attempt
    || (is_event_type t firewall_deny
        || (is_event_type t firewall_allow || is_event_type t network_flow))

unfoldable pub applies_to : {R : Type 0} → SecurityEvent R → Bool
unfolding is_scan_event
applies_to e = is_scan_event e.event_type && (is_given e.source_ip && is_given e.destination_port)

-- `int(p) for p in ps if p.isdigit()`, in ascending order
insert_number : ℕ → List ℕ → List ℕ
insert_number n [] = n ∷ []
insert_number n (m ∷ ms) = if ltb m n then m ∷ insert_number n ms else n ∷ m ∷ ms

insert_port : Option ℕ → List ℕ → List ℕ
insert_port none ns = ns
insert_port (some n) ns = insert_number n ns

numbers : List String → List ℕ
unfolding insert_number insert_port
numbers [] = []
numbers (p ∷ ps) = insert_port (int_of p) (numbers ps)

module _ {R : Type 0} ⦃F : Floats R⦄ where
  number_values : List ℕ → Values R
  number_values [] = nil
  number_values (n ∷ ns) = cons (int (pos n)) (number_values ns)

  unfoldable pub detection : Params → SecurityEvent R → String → ℕ → WindowResult → Detection R
  unfolding numbers number_values
  detection p e ip port res =
      let ports = length res.unique_values in
      record {
        rule_id = rule_id;
        kind = DetectionKind.rule;
        title = fmt ("Port scan from " ∷ ip ∷ []);
        description = fmt (
            ip
            ∷ " contacted "
            ∷ str ports
            ∷ " unique destination ports in "
            ∷ fixed {R = R} 0 (seconds (span res))
            ∷ "s (~"
            ∷ fixed {R = R} 1 (fdiv (of_ℕ ports) (fmax (seconds (span res)) (dec 10 1)))
            ∷ " ports/s, threshold "
            ∷ str p.unique_ports
            ∷ "/"
            ∷ str p.window_seconds
            ∷ "s)."
            ∷ []);
        severity = high;
        confidence =
            round
              (fmin (dec 98 2) (fadd (dec 6 1) (fmul (dec 15 3) (of_ℕ (ports - p.unique_ports)))))
              2;
        correlation_key = fmt ("srcip:" ∷ ip ∷ ":portscan" ∷ []);
        source_ip = e.source_ip;
        affected_host = some (or_text e.destination_ip e.source);
        recommended_action =
            "Treat the source as reconnaissance. Block at the perimeter, check whether any probed service responded, and review exposure of the scanned ports.";
        evidence =
            record {
              event_id = e.event_id;
              timestamp = e.timestamp;
              summary = fmt (
                  event_type_value e.event_type
                  ∷ " -> "
                  ∷ shown e.destination_ip
                  ∷ ":"
                  ∷ str port
                  ∷ []);
            }
            ∷ [];
        involved_users = [];
        involved_hosts = listed e.destination_ip;
        event_count_hint = res.count;
        anomaly_score = none;
        metadata = field "unique_ports" (int (pos ports)) (
            field "ports_sample" (list (number_values (numbers (take 30 res.unique_values))))
              (field "window_seconds" (int (pos p.window_seconds)) end));
        triggered_at = none;
      }

module _ {R S : Type 0} ⦃F : Floats R⦄ ⦃rd : Redis S⦄ where
  unfoldable pub evaluate_from :
      Params → SecurityEvent R → String → ℕ → Env → S → Outcome (Option (Detection R)) × S
  evaluate_from p e ip port env s =
      let (res, s') =
        add_and_measure "portscan" ip (str port) env.token p.window_seconds e.timestamp s in
      (
        if ltb (length res.unique_values) p.unique_ports
            then ok none
            else ok (some (detection p e ip port res)),
        s',
      )

  unfoldable pub evaluate : Params → SecurityEvent R → Env → S → Outcome (Option (Detection R)) × S
  unfolding evaluate_from
  evaluate p e env s = elim e.source_ip [
    | none ↦ (raised "AssertionError", s)
    | some ip ↦ elim e.destination_port [
      | none ↦ (raised "AssertionError", s)
      | some port ↦ evaluate_from p e ip port env s
    ]
  ]

  abbrev pub detector : Params → Detector R S
  detector p = record { rule_id = rule_id; applies_to = applies_to; evaluate = evaluate p }
