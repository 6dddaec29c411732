-- ===== src/Rule/PasswordSpray.antt =====
-- backend/app/detection/rules/password_spray.py: RULE-002.
use real_time_distributed_si.Prelude.{
  ℕ, pos, ◌-◌, String, Bool, Option, none, some, [], ◌∷◌, ◌&&◌, not, if◌then◌else◌, ltb, fmt, str,
  filter, sorted, take, length, lower, str_eq, is_nonempty,
}
use real_time_distributed_si.Floats.{Floats, fadd, fmul, dec, of_ℕ, round, fixed, fmin}
use real_time_distributed_si.Enums.{DetectionKind, is_event_type, auth_failure, high}
use real_time_distributed_si.Value.{end, field, int}
use real_time_distributed_si.Event.{SecurityEvent}
use real_time_distributed_si.Redis.{Redis}
use real_time_distributed_si.Window.{WindowResult, add_and_measure, span}
use real_time_distributed_si.Detection.{
  Detection, Detector, Env, Outcome, ok, raised, or_text, shown, seconds, truthy,
}

pub record Params : Type 0 where
  pub unique_users : ℕ
  pub window_seconds : ℕ

abbrev pub rule_id : String
rule_id = "RULE-002"

-- `u and u != "-"`
abbrev pub is_user : String → Bool
is_user u = is_nonempty u && not (str_eq u "-")

unfoldable pub applies_to : {R : Type 0} → SecurityEvent R → Bool
applies_to e = is_event_type e.event_type auth_failure && (truthy e.source_ip && truthy e.username)

-- `distinct`
unfoldable pub distinct_users : WindowResult → ℕ
distinct_users res = length (filter is_user res.unique_values)

module _ {R : Type 0} ⦃F : Floats R⦄ where
  unfoldable pub detection : Params → SecurityEvent R → String → WindowResult → Detection R
  unfolding distinct_users
  detection p e ip res =
      let distinct = distinct_users res in
      record {
        rule_id = rule_id;
        kind = DetectionKind.rule;
        title = fmt ("Password spraying from " ∷ ip ∷ []);
        description = fmt (
            ip
            ∷ " attempted authentication against "
            ∷ str distinct
            ∷ " distinct usernames in "
            ∷ fixed {R = R} 0 (seconds (span res))
            ∷ "s ("
            ∷ str res.count
            ∷ " attempts total), a low-and-slow pattern consistent with password spraying."
            ∷ []);
        severity = high;
        confidence =
            round
              (fmin (dec 97 2)
                (fadd (dec 55 2) (fmul (dec 3 2) (of_ℕ (distinct - p.unique_users)))))
              2;
        correlation_key = fmt ("srcip:" ∷ ip ∷ ":spray" ∷ []);
        source_ip = e.source_ip;
        affected_host = some e.source;
        recommended_action =
            "Confirm whether the source IP is a legitimate gateway (VPN/NAT). If not, block it and review accounts targeted for weak-password exposure; enable MFA where missing.";
        evidence =
            record {
              event_id = e.event_id;
              timestamp = e.timestamp;
              summary = fmt ("auth failure user=" ∷ shown e.username ∷ " host=" ∷ e.source ∷ []);
            }
            ∷ [];
        involved_users = take 25 (sorted (filter is_user res.unique_values));
        involved_hosts = e.source ∷ [];
        event_count_hint = res.count;
        anomaly_score = none;
        metadata =
            field "distinct_users" (int (pos distinct))
              (field "window_seconds" (int (pos p.window_seconds)) end);
        triggered_at = none;
      }

module _ {R S : Type 0} ⦃F : Floats R⦄ ⦃rd : Redis S⦄ where
  unfoldable pub evaluate_from :
      Params → SecurityEvent R → String → Env → S → Outcome (Option (Detection R)) × S
  evaluate_from p e ip env s =
      let (res, s') =
        add_and_measure "spray" ip (lower (or_text e.username "-")) env.token p.window_seconds
          e.timestamp s in
      (
        if ltb (distinct_users res) p.unique_users
            then ok none
            else ok (some (detection p e ip res)),
        s',
      )

  unfoldable pub evaluate : Params → SecurityEvent R → Env → S → Outcome (Option (Detection R)) × S
  unfolding evaluate_from
  evaluate p e env s = elim e.source_ip [
    | none ↦ (raised "AssertionError", s)
    | some ip ↦ evaluate_from p e ip env s
  ]

  abbrev pub detector : Params → Detector R S
  detector p = record { rule_id = rule_id; applies_to = applies_to; evaluate = evaluate p }
