-- ===== src/Simulator/Known/Attacks.antt =====
-- simulator/simulator/scenarios/ against the enumerations of backend/app/schemas/enums.py: the event types and
-- source types that the generators write.
use real_time_distributed_si.Prelude.{
  ℕ, zero, suc, ◌+◌, ◌*◌, min, length, ◌≡◌, refl, String, Bool, true, false, none, some, List, [],
  ◌∷◌, ◌++◌, arith, All, All-append, In, All-In, Bool-cases, inl, inr, str_eq, lower, ℤ,
}
use mathlib.Core.Path.{subst}
use real_time_distributed_si.Floats.{Floats, fdiv, of_ℕ}
use real_time_distributed_si.Enums.{is_event_type, is_source_type, event_type_of, source_type_of}
use real_time_distributed_si.Value.{Fields, get}
use real_time_distributed_si.Event.{SecurityEvent}
use real_time_distributed_si.Detection.{ok}
use real_time_distributed_si.Normalize.{Platform, Draw, from_raw}
use real_time_distributed_si.Simulator.World.{World, Reals, Draws, choice, sample}
use real_time_distributed_si.Simulator.Models.{
  payload, make_event, ssh_hosts, users, idp_hosts, fw_hosts, app_hosts, db_hosts, web_hosts,
  rand_internal_ip, rand_external_ip,
}
use real_time_distributed_si.Simulator.Scenarios.{or_randint, or_external, or_internal}
use real_time_distributed_si.Simulator.Scenarios.Logins.{
  breached, attempts_from, failed_attempt, breach_events, breach_event, ssh_brute_force, sprayed,
  spray_event, lucky_hit, credential_attack,
}
use real_time_distributed_si.Simulator.Scenarios.Network.{
  probe, probes, port_scan, random_ports, common_ports, chunk, chunks_from, data_exfiltration,
}
use real_time_distributed_si.Simulator.Scenarios.Hosts.{
  or_user, malicious_queries, rounds, first_login, escalation, privilege_escalation_attack,
  injection, sql_attack, web_probe, web_attack,
}
use real_time_distributed_si.Simulator.Scenarios.Catalogue.{scenarios, find_scenario, scenario_of}
use real_time_distributed_si.Simulator.Known.{
  IsKnown, Makes, known_if, event_known, IsTyped, from_raw-IsTyped,
}

-- what a scenario draws is known
abbrev MakesAll : {R : Type 0} (G : Type 0) → Draws G (List (Fields R)) → Type 0
MakesAll G m = (g : G) → All IsKnown (m g).0

module _ (R : Type 0) {G : Type 0} ⦃w : World G⦄ where
  rounds-MakesAll : (m : Draws G (Fields R)) (n : ℕ) → Makes G m → MakesAll G (rounds m n)
  unfolding rounds
  rounds-MakesAll m zero h g = tt
  rounds-MakesAll m (suc n) h g = (h g, rounds-MakesAll m n h (m g).1)

  attempts-MakesAll :
      (host src : String) (targets : List String) (i n : ℕ)
      → MakesAll G (attempts_from {R = R} host src targets i n)
  unfolding attempts_from failed_attempt make_event payload get event_type_of source_type_of
      is_event_type is_source_type lower
  attempts-MakesAll host src targets i zero g = tt
  attempts-MakesAll host src targets i (suc n) g =
      ((refl, refl), attempts-MakesAll host src targets (i + 1) n _)

  breach-MakesAll :
      (b : Bool) (host src : String) (targets : List String)
      → MakesAll G (breach_events {R = R} b host src targets)
  unfolding breach_events breach_event make_event payload get event_type_of source_type_of
      is_event_type is_source_type lower
  breach-MakesAll false host src targets g = tt
  breach-MakesAll true host src targets g = ((refl, refl), tt)

  ssh_brute_force-MakesAll : MakesAll G (ssh_brute_force {R = R} none none none)
  unfolding ssh_brute_force
  ssh_brute_force-MakesAll g =
      let (n, g₁) = or_randint none 15 32 g in
      let (b, g₂) = breached none g₁ in
      let (src, g₃) = or_external none g₂ in
      let (host, g₄) = choice "" ssh_hosts g₃ in
      let (k, g₅) = w.randint 2 5 g₄ in
      let (targets, g₆) = sample "" users (min (length users) k) g₅ in
      let failures : List (Fields R) × G = attempts_from host src targets 0 n g₆ in
      All-append IsKnown failures.0 _ (attempts-MakesAll host src targets 0 n g₆)
        (breach-MakesAll b host src targets failures.1)

  sprayed-MakesAll :
      (host src : String) (targets : List String) → MakesAll G (sprayed {R = R} host src targets)
  unfolding sprayed spray_event make_event payload get event_type_of source_type_of is_event_type
      is_source_type lower
  sprayed-MakesAll host src [] g = tt
  sprayed-MakesAll host src (user ∷ targets) g = ((refl, refl), sprayed-MakesAll host src targets _)

  lucky-MakesAll :
      (b : Bool) (host src : String) (targets : List String)
      → MakesAll G (lucky_hit {R = R} b host src targets)
  unfolding lucky_hit spray_event make_event payload get event_type_of source_type_of is_event_type
      is_source_type lower
  lucky-MakesAll false host src targets g = tt
  lucky-MakesAll true host src targets g = ((refl, refl), tt)

  credential_attack-MakesAll : MakesAll G (credential_attack {R = R} none none)
  unfolding credential_attack
  credential_attack-MakesAll g =
      let (n, g₁) = or_randint none 12 24 g in
      let (src, g₂) = or_external none g₁ in
      let (host, g₃) = choice "" idp_hosts g₂ in
      let (targets, g₄) = sample "" users (min n (length users)) g₃ in
      let failures : List (Fields R) × G = sprayed host src targets g₄ in
      let (lucky, g₅) = w.random_gt 9 1 failures.1 in
      All-append IsKnown failures.0 _ (sprayed-MakesAll host src targets g₄)
        (lucky-MakesAll lucky host src targets g₅)

  probes-MakesAll :
      (fw src target : String) (ports : List ℕ) → MakesAll G (probes {R = R} fw src target ports)
  unfolding probes probe make_event payload get event_type_of source_type_of is_event_type
      is_source_type lower
  probes-MakesAll fw src target [] g = tt
  probes-MakesAll fw src target (port ∷ ports) g = (
    (
      known_if event_known (w.random_gt 15 2 g).0 "firewall_deny" "connection_attempt" refl refl,
      refl,
    ),
    probes-MakesAll fw src target ports _,
  )

  port_scan-MakesAll : MakesAll G (port_scan {R = R} none none)
  unfolding port_scan
  port_scan-MakesAll g =
      let (n, g₁) = or_randint none 25 60 g in
      let (src, g₂) = or_external none g₁ in
      let (target, g₃) = rand_internal_ip g₂ in
      let (fw, g₄) = choice "" fw_hosts g₃ in
      let (more, g₅) = random_ports n g₄ in
      let pool = common_ports ++ more in
      let (chosen, g₆) = sample 0 pool (min n (length pool)) g₅ in
      probes-MakesAll fw src target chosen g₆

  escalation-Makes : (host src user : String) → Makes G (escalation {R = R} host src user)
  unfolding escalation make_event payload get event_type_of source_type_of is_event_type
      is_source_type lower
  escalation-Makes host src user g = (refl, refl)

  first_login-Makes : (host src user : String) → Makes G (first_login {R = R} host src user)
  unfolding first_login make_event payload get event_type_of source_type_of is_event_type
      is_source_type lower
  first_login-Makes host src user g = (refl, refl)

  privilege_escalation-MakesAll : MakesAll G (privilege_escalation_attack {R = R} none none)
  unfolding privilege_escalation_attack
  privilege_escalation-MakesAll g =
      let (user, g₁) = or_user none g in
      let (src, g₂) = or_internal none g₁ in
      let (host, g₃) = choice "" (ssh_hosts ++ app_hosts) g₂ in
      let login : Fields R × G = first_login host src user g₃ in
      let (n, g₄) = w.randint 2 4 login.1 in
      (
        first_login-Makes host src user g₃,
        rounds-MakesAll (escalation host src user) n (escalation-Makes host src user) g₄,
      )

  injection-Makes : (db web src : String) → Makes G (injection {R = R} db web src)
  unfolding injection make_event payload get event_type_of source_type_of is_event_type
      is_source_type lower
  injection-Makes db web src g =
      let (q, g₁) = choice "" malicious_queries g in
      let (rows, g₂) = choice {A = ℕ} 0 (0 ∷ 0 ∷ 1 ∷ 12000 ∷ 45000 ∷ []) g₁ in
      (known_if event_known (w.random_gt 5 1 g₂).0 "db_error" "db_query" refl refl, refl)

  sql_attack-MakesAll : MakesAll G (sql_attack {R = R} none)
  unfolding sql_attack
  sql_attack-MakesAll g =
      let (src, g₁) = or_external none g in
      let (web, g₂) = choice "" web_hosts g₁ in
      let (db, g₃) = choice "" db_hosts g₂ in
      let (n, g₄) = w.randint 4 9 g₃ in
      rounds-MakesAll (injection db web src) n (injection-Makes db web src) g₄

  web_probe-Makes : (web src : String) → Makes G (web_probe {R = R} web src)
  unfolding web_probe make_event payload get event_type_of source_type_of is_event_type
      is_source_type lower
  web_probe-Makes web src g = (refl, refl)

  web_attack-MakesAll : MakesAll G (web_attack {R = R} none)
  unfolding web_attack
  web_attack-MakesAll g =
      let (src, g₁) = or_external none g in
      let (web, g₂) = choice "" web_hosts g₁ in
      let (n, g₃) = w.randint 18 40 g₂ in
      rounds-MakesAll (web_probe web src) n (web_probe-Makes web src) g₃

module _ (R : Type 0) {G : Type 0} ⦃F : Floats R⦄ ⦃w : World G⦄ ⦃r : Reals R G⦄ where
  chunks-MakesAll :
      (host src dst : String) (per_chunk : ℤ) (chunks i n : ℕ)
      → MakesAll G (chunks_from {R = R} host src dst per_chunk chunks i n)
  unfolding chunks_from chunk make_event payload get event_type_of source_type_of is_event_type
      is_source_type lower
  chunks-MakesAll host src dst per_chunk chunks i zero g = tt
  chunks-MakesAll host src dst per_chunk chunks i (suc n) g =
      ((refl, refl), chunks-MakesAll host src dst per_chunk chunks (i + 1) n _)

  data_exfiltration-MakesAll : MakesAll G (data_exfiltration {R = R} none none)
  unfolding data_exfiltration
  data_exfiltration-MakesAll g =
      let (src, g₁) = or_internal none g in
      let (dst, g₂) = rand_external_ip g₁ in
      let (host, g₃) = choice "" (app_hosts ++ db_hosts) g₂ in
      let (total, g₄) = or_randint none 120 900 g₃ in
      let (chunks, g₅) = w.randint 15 40 g₄ in
      chunks-MakesAll host src dst (F.trunc (fdiv (of_ℕ (total * 1024 * 1024)) (of_ℕ chunks)))
        chunks 0 chunks g₅

module _ (R G : Type 0) ⦃F : Floats R⦄ ⦃w : World G⦄ ⦃r : Reals R G⦄ where
  scenarios-MakesAll : All (λ (s : String × Draws G (List (Fields R))). MakesAll G s.1) scenarios
  unfolding scenarios
  scenarios-MakesAll = (
    ssh_brute_force-MakesAll R,
    (
      port_scan-MakesAll R,
      (
        credential_attack-MakesAll R,
        (
          privilege_escalation-MakesAll R,
          (data_exfiltration-MakesAll R, (sql_attack-MakesAll R, (web_attack-MakesAll R, tt))),
        ),
      ),
    ),
  )

find_scenario-MakesAll :
    {R G : Type 0} (name : String) (ss : List (String × Draws G (List (Fields R))))
    (m : Draws G (List (Fields R)))
    → All (λ (s : String × Draws G (List (Fields R))). MakesAll G s.1) ss
    → find_scenario name ss ≡ some m
    → MakesAll G m
unfolding find_scenario
find_scenario-MakesAll name [] m h e = absurd (ground arith)
find_scenario-MakesAll {G = G} name ((n, generate) ∷ rest) m h e =
    elim (Bool-cases (str_eq n name)) [
      | inl here ↦ let same : generate ≡ m = ground arith in subst (λ k. MakesAll G k) same h.0
      | inr later ↦ find_scenario-MakesAll name rest m h.1 (ground arith)
    ]

-- Every event of every scenario in the catalogue of the simulator, if `from_raw` accepts it, has an
-- event type and a source type that the backend knows.
pub scenario_of-IsTyped :
    {R G : Type 0} ⦃F : Floats R⦄ ⦃w : World G⦄ ⦃r : Reals R G⦄ (pf : Platform R) (draw : Draw)
    (name : String) (m : Draws G (List (Fields R))) (g : G) (d : Fields R) (e : SecurityEvent R)
    → scenario_of name ≡ some m
    → In d (m g).0
    → from_raw pf draw d ≡ ok e
    → IsTyped pf e
unfolding scenario_of
scenario_of-IsTyped {R} {G} pf draw name m g d e found i h =
    let known = find_scenario-MakesAll name scenarios m (scenarios-MakesAll R G) found in
    from_raw-IsTyped pf draw d e (All-In IsKnown d (m g).0 (known g) i) h
