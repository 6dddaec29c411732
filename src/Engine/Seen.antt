-- ===== src/Engine/Seen.antt =====
-- No detector touches the set of event ids that are seen.
use real_time_distributed_si.Prelude.{
  String, Option, none, some, List, [], ◌∷◌, All, Bool-cases, Option-cases, inl, inr, is_nonempty,
  ◌&&◌,
}
use real_time_distributed_si.Floats.{Floats}
use real_time_distributed_si.Settings.{Settings}
use real_time_distributed_si.Enums.{is_event_type, auth_success}
use real_time_distributed_si.Value.{Value}
use real_time_distributed_si.Event.{SecurityEvent}
use real_time_distributed_si.Redis.{Redis}
use real_time_distributed_si.Redis.Seen.{SameSeen, SameSeen-refl, SameSeen-trans}
use real_time_distributed_si.Window.Seen.{
  add_and_measure-SameSeen, measure-SameSeen, incr_sum-SameSeen,
}
use real_time_distributed_si.Detection.{Detector, Env}
use real_time_distributed_si.Rule.BruteForce
use real_time_distributed_si.Rule.PasswordSpray
use real_time_distributed_si.Rule.PortScan
use real_time_distributed_si.Rule.DataExfiltration
use real_time_distributed_si.Rule.AuthAnomaly
use real_time_distributed_si.Rule.PrivilegeEscalation
use real_time_distributed_si.Rule.SuspiciousSql
use real_time_distributed_si.Engine.{rule_detectors, evaluate, runs}

module _ {R S : Type 0} ⦃rd : Redis S⦄ where
  pub record KeepsSeen (d : Detector R S) : Type 0 where
    pub keeps : (e : SecurityEvent R) (env : Env) (s : S) → SameSeen s (d.evaluate e env s).1

  pub evaluate-SameSeen :
      (ds : List (Detector R S)) (disabled : List String) (env : String → Env) (e : SecurityEvent R)
      (s : S)
      → All KeepsSeen ds
      → SameSeen s (evaluate ds disabled env e s).1
  unfolding evaluate
  evaluate-SameSeen [] disabled env e s h = SameSeen-refl s
  evaluate-SameSeen (d ∷ ds) disabled env e s h = elim (Bool-cases (runs disabled d e)) [
    | inl go ↦
        rw (go, runs)
          (SameSeen-trans (h.0.keeps e (env d.rule_id) s)
            (evaluate-SameSeen ds disabled env e (d.evaluate e (env d.rule_id) s).1 h.1))
    | inr skip ↦ rw (skip, runs) (evaluate-SameSeen ds disabled env e s h.1)
  ]

module _ {R S : Type 0} ⦃F : Floats R⦄ ⦃rd : Redis S⦄ where
  brute_force-KeepsSeen :
      (p : BruteForce.Params) → KeepsSeen (BruteForce.detector {R = R} {S = S} p)
  unfolding BruteForce.evaluate
  brute_force-KeepsSeen p = record {
    keeps = λ e env s. elim (Option-cases e.source_ip) [
      | inl n ↦ rw (n, BruteForce.evaluate) (SameSeen-refl s)
      | inr (ip, g) ↦
          rw (g, BruteForce.evaluate)
            (elim (Bool-cases (is_event_type e.event_type auth_success)) [
              | inl login ↦ rw login (measure-SameSeen "bruteforce" ip p.window_seconds env.wall s)
              | inr fail ↦ rw fail (add_and_measure-SameSeen "bruteforce" ip _ env.token _ _ s)
            ])
    ];
  }

  password_spray-KeepsSeen :
      (p : PasswordSpray.Params) → KeepsSeen (PasswordSpray.detector {R = R} {S = S} p)
  unfolding PasswordSpray.evaluate
  password_spray-KeepsSeen p = record {
    keeps = λ e env s. elim (Option-cases e.source_ip) [
      | inl n ↦ rw (n, PasswordSpray.evaluate) (SameSeen-refl s)
      | inr (ip, g) ↦
          rw (g, PasswordSpray.evaluate) (add_and_measure-SameSeen "spray" ip _ env.token _ _ s)
    ];
  }

  port_scan-KeepsSeen : (p : PortScan.Params) → KeepsSeen (PortScan.detector {R = R} {S = S} p)
  unfolding PortScan.evaluate
  port_scan-KeepsSeen p = record {
    keeps = λ e env s. elim (Option-cases e.source_ip) [
      | inl n ↦ rw (n, PortScan.evaluate) (SameSeen-refl s)
      | inr (ip, g) ↦
          rw (g, PortScan.evaluate)
            (elim (Option-cases e.destination_port) [
              | inl m ↦ rw (m, PortScan.evaluate) (SameSeen-refl s)
              | inr (port, g') ↦
                  rw (g', PortScan.evaluate)
                    (add_and_measure-SameSeen "portscan" ip _ env.token _ _ s)
            ])
    ];
  }

  data_exfiltration-KeepsSeen :
      (p : DataExfiltration.Params) → KeepsSeen (DataExfiltration.detector {R = R} {S = S} p)
  unfolding DataExfiltration.evaluate
  data_exfiltration-KeepsSeen p = record {
    keeps = λ e env s. elim (Option-cases e.source_ip) [
      | inl n ↦ rw (n, DataExfiltration.evaluate) (SameSeen-refl s)
      | inr (ip, g) ↦
          rw (g, DataExfiltration.evaluate)
            (incr_sum-SameSeen "exfil" _ e.bytes_out env.token _ _ s)
    ];
  }

  auth_anomaly-KeepsSeen :
      (p : AuthAnomaly.Params) → KeepsSeen (AuthAnomaly.detector {R = R} {S = S} p)
  unfolding AuthAnomaly.evaluate
  auth_anomaly-KeepsSeen p = record { keeps = λ e env s. asserted e env s e.username e.source_ip }
    where
      asserted :
          (e : SecurityEvent R) (env : Env) (s : S) (user ip : Option String)
          → SameSeen s (AuthAnomaly.asserted p e env s user ip).1
      asserted e env s none ip = SameSeen-refl s
      asserted e env s (some user) none = SameSeen-refl s
      asserted e env s (some user) (some ip) =
          elim (Bool-cases (is_nonempty user && is_nonempty ip)) [
            | inl yes_ ↦ rw yes_ (add_and_measure-SameSeen _ _ ip env.token _ _ s)
            | inr no_ ↦ rw no_ (SameSeen-refl s)
          ]

pub rule_detectors-KeepsSeen :
    {R : Type 0} (S : Type 0) ⦃F : Floats R⦄ ⦃rd : Redis S⦄ (repr : Value R → String)
    (c : Settings R)
    → All KeepsSeen (rule_detectors {R = R} {S = S} repr c)
unfolding rule_detectors PrivilegeEscalation.evaluate SuspiciousSql.evaluate
rule_detectors-KeepsSeen S repr c = (
  brute_force-KeepsSeen _,
  (
    password_spray-KeepsSeen _,
    (
      port_scan-KeepsSeen _,
      (
        record { keeps = λ e env s. SameSeen-refl s },
        (
          record { keeps = λ e env s. SameSeen-refl s },
          (data_exfiltration-KeepsSeen _, (auth_anomaly-KeepsSeen _, tt)),
        ),
      ),
    ),
  ),
)
