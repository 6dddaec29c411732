-- ===== src/Simulator/Scenarios/Catalogue.antt =====
-- simulator/simulator/scenarios/__init__.py: the scenarios by name, and `run_scenario_once` of
-- simulator/simulator/engine.py.
use real_time_distributed_si.Prelude.{
  String, Option, none, some, List, [], ◌∷◌, if◌then◌else◌, str_eq,
}
use real_time_distributed_si.Floats.{Floats}
use real_time_distributed_si.Value.{Fields}
use real_time_distributed_si.Simulator.World.{World, Reals, Draws}
use real_time_distributed_si.Simulator.Scenarios.Logins.{ssh_brute_force, credential_attack}
use real_time_distributed_si.Simulator.Scenarios.Network.{port_scan, data_exfiltration}
use real_time_distributed_si.Simulator.Scenarios.Hosts.{
  privilege_escalation_attack, sql_attack, web_attack,
}

unfoldable pub find_scenario : {A : Type 0} → String → List (String × A) → Option A
find_scenario name [] = none
find_scenario name ((n, generate) ∷ rest) =
    if str_eq n name then some generate else find_scenario name rest

module _ {R G : Type 0} ⦃F : Floats R⦄ ⦃w : World G⦄ ⦃r : Reals R G⦄ where
  -- `SCENARIOS`, each called without arguments
  unfoldable pub scenarios : List (String × Draws G (List (Fields R)))
  scenarios =
      ("ssh_brute_force", ssh_brute_force none none none)
      ∷ ("port_scan", port_scan none none)
      ∷ ("credential_attack", credential_attack none none)
      ∷ ("privilege_escalation", privilege_escalation_attack none none)
      ∷ ("data_exfiltration", data_exfiltration none none)
      ∷ ("sql_attack", sql_attack none)
      ∷ ("web_attack", web_attack none)
      ∷ []

  -- `SCENARIOS.get(name)`
  unfoldable pub scenario_of : String → Option (Draws G (List (Fields R)))
  unfolding scenarios find_scenario
  scenario_of name = find_scenario name scenarios
