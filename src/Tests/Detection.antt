-- ===== src/Tests/Detection.antt =====
-- The theorems on windows, rules and the engine at concrete inputs.
use real_time_distributed_si.Prelude.{
  ◌+◌, String, true, false, ◌≡◌, refl, ◌||◌, arith, [], ◌∷◌, All, mem, str_eq, length,
  if◌then◌else◌, pos, ℕ,
}
use real_time_distributed_si.Window.{add_and_measure, incr_sum, encode, decode, decoded, key, total}
use real_time_distributed_si.Window.Codec.{has_sep, decode-encode}
use real_time_distributed_si.Window.Contents.{add_and_measure_lem, incr_sum_lem, kept, live}
use real_time_distributed_si.Engine.{rule_detectors, evaluate, set_enabled}
use real_time_distributed_si.Engine.Labels.{Comes}
use real_time_distributed_si.Engine.Catalogue.{evaluate_lem, disabled_silent}
use real_time_distributed_si.Event.{SecurityEvent}
use real_time_distributed_si.Floats.{flt}
use real_time_distributed_si.Enums.{EventType}
use real_time_distributed_si.Window.{WindowResult}
use real_time_distributed_si.Rule.BruteForce
use real_time_distributed_si.Rule.PasswordSpray
use real_time_distributed_si.Rule.PortScan
use real_time_distributed_si.Rule.DataExfiltration
use real_time_distributed_si.Rule.AuthAnomaly
use real_time_distributed_si.Rule.PrivilegeEscalation
use real_time_distributed_si.Rule.SuspiciousSql
use real_time_distributed_si.Rule.Confidence.{confidence_capped}
use real_time_distributed_si.Tests.Fixtures.{
  Memory, memory, empty_memory, thousandths, settings, shown_value, failed_login, env_at,
}

-- one failed logged_in of "admin" before
abbrev one_failure : Memory
one_failure = record empty_memory {
  sorted_sets = λ k.
      if str_eq k (key "bruteforce" "203.0.113.9")
      then (encode "admin" "t0", 30000000) ∷ []
      else [];
}

add_and_measure_lem_example :
    ((add_and_measure "bruteforce" "203.0.113.9" "root" "t1" 60 40000000 one_failure).0.count
      ≡ length (kept (key "bruteforce" "203.0.113.9") 60 40000000 one_failure) + 1)
    × ((v : String)
        → mem v
            (add_and_measure "bruteforce" "203.0.113.9" "root" "t1" 60 40000000
              one_failure).0.unique_values
          ≡ (str_eq (decode (encode "root" "t1")) v
              || mem v (decoded (kept (key "bruteforce" "203.0.113.9") 60 40000000 one_failure))))
    × All
        (λ e. live 60 40000000 e ≡ true)
        (memory.zrange
          (key "bruteforce" "203.0.113.9")
          (add_and_measure "bruteforce" "203.0.113.9" "root" "t1" 60 40000000 one_failure).1)
    × ((j : String)
        → str_eq (key "bruteforce" "203.0.113.9") j ≡ false
        → memory.zrange j
            (add_and_measure "bruteforce" "203.0.113.9" "root" "t1" 60 40000000 one_failure).1
          ≡ memory.zrange j one_failure)
unfolding key encode
add_and_measure_lem_example =
    add_and_measure_lem "bruteforce" "203.0.113.9" "root" "t1" 60 40000000 one_failure (omega arith)
      (refl, tt)

incr_sum_lem_example :
    (incr_sum "exfil" "a->b" 500 "t1" 60 40000000 empty_memory).0
    ≡ 500 + total (kept (key "exfil" "a->b") 60 40000000 empty_memory)
incr_sum_lem_example = incr_sum_lem "exfil" "a->b" 500 "t1" 60 40000000 empty_memory tt

decode-encode_example : decode (encode "alice" "t1") ≡ "alice"
unfolding has_sep
decode-encode_example = decode-encode "alice" "t1" refl

evaluate_lem_example :
    All
      (Comes
        (rule_detectors {S = Memory} shown_value settings)
        []
        (env_at 40)
        (failed_login "e1" 40))
      (evaluate
        (rule_detectors {S = Memory} shown_value settings)
        []
        (env_at 40)
        (failed_login "e1" 40)
        one_failure).0
evaluate_lem_example =
    evaluate_lem shown_value settings [] (env_at 40) (failed_login "e1" 40) one_failure

disabled_silent_example :
    All
      (λ x. str_eq x.rule_id "RULE-001" ≡ false)
      (evaluate
        (rule_detectors {S = Memory} shown_value settings)
        (set_enabled "RULE-001" false [])
        (env_at 40)
        (failed_login "e1" 40)
        one_failure).0
disabled_silent_example =
    disabled_silent shown_value settings "RULE-001" [] (env_at 40) (failed_login "e1" 40)
      one_failure

abbrev small : BruteForce.Params
small = record { max_failures = 2; window_seconds = 60 }

abbrev logged_in : SecurityEvent ℕ
logged_in = record (failed_login "e2" 41) { event_type = EventType.auth_success }

abbrev burst : WindowResult
burst = record { count = 90; unique_values = "root" ∷ []; oldest_ts = 0; newest_ts = 41000000 }

abbrev all_signals : PrivilegeEscalation.Signals
all_signals = record {
  low_priv_actor = true;
  is_off_hours = true;
  explicit_flag = true;
  failed = true;
}

confidence_capped_example :
    (flt 990 (BruteForce.detection small logged_in "203.0.113.9" burst true).confidence ≡ false)
    × (flt 970
          (PasswordSpray.detection
            (record { unique_users = 8; window_seconds = 120 })
            logged_in
            "203.0.113.9"
            burst).confidence
        ≡ false)
    × (flt 980
          (PortScan.detection
            (record { unique_ports = 20; window_seconds = 30 })
            logged_in
            "203.0.113.9"
            22
            burst).confidence
        ≡ false)
    × (flt 950
          (DataExfiltration.detection
            (record { bytes_threshold = 52428800; window_seconds = 60 })
            logged_in
            "203.0.113.9"
            900000000).confidence
        ≡ false)
    × (flt 920
          (AuthAnomaly.detection AuthAnomaly.default_params logged_in "root" "203.0.113.9"
            burst).confidence
        ≡ false)
    × (flt 950 (PrivilegeEscalation.detection shown_value logged_in all_signals).confidence ≡ false)
    × (flt 960
          (SuspiciousSql.detection shown_value logged_in "select" ("a" ∷ []) 900 (pos 1)).confidence
        ≡ false)
confidence_capped_example =
    confidence_capped logged_in "203.0.113.9" "root" "select" burst 22 900000000 true small
      (record { unique_users = 8; window_seconds = 120 })
      (record { unique_ports = 20; window_seconds = 30 })
      (record { bytes_threshold = 52428800; window_seconds = 60 }) AuthAnomaly.default_params
      shown_value all_signals ("a" ∷ []) 900 (pos 1)
