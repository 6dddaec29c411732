-- ===== src/Tests/Simulation.antt =====
-- The theorems on the simulator, its control and its attacks at concrete inputs.
use real_time_distributed_si.Prelude.{
  ℕ, ◌+◌, ◌≡◌, refl, pos, String, true, false, none, some, List, [], ◌∷◌, arith, inl, str, mem,
}
use real_time_distributed_si.Event.{SecurityEvent}
use real_time_distributed_si.Value.{Value, Fields, text, int, bool, float, dict, field, end, get}
use real_time_distributed_si.Detection.{Detection, Env, Outcome, ok, raised}
use real_time_distributed_si.Normalize.{Platform, Draw, from_raw, normalize_ts, clamp_skew}
use real_time_distributed_si.Rule.BruteForce.{Params}
use real_time_distributed_si.Control.{
  Json, SimulatorSettings, default_simulator_settings, default_state, get_state, set_state,
}
use real_time_distributed_si.Control.Valid.{IsSound, ReadsValid, IsAnswer, set_state_lem}
use real_time_distributed_si.Simulator.{EngineState}
use real_time_distributed_si.Simulator.Models.{make_event}
use real_time_distributed_si.Simulator.Sync.{sync_from_redis, taken, sync_from_redis_lem}
use real_time_distributed_si.Simulator.Known.{IsTyped}
use real_time_distributed_si.Simulator.Known.Attacks.{scenario_of-IsTyped}
use real_time_distributed_si.Simulator.Scenarios.Catalogue.{scenario_of}
use real_time_distributed_si.Simulator.Scenarios.Hosts.{sql_attack}
use real_time_distributed_si.Simulator.World.{World, Reals}
use real_time_distributed_si.Tests.Fixtures.{memory, thousandths, platform, failed_login}

-- the least number of each range, the first of each list, and a still clock
instance abbrev world : World ℕ
world = record {
  randint = λ a b g. (a, g + 1);
  random_gt = λ n k g. (true, g + 1);
  random_lt = λ n k g. (false, g + 1);
  sample_places = λ size k g. (0 ∷ 1 ∷ [], g + 1);
  choices_place = λ weights g. (0, g + 1);
  uuid4 = λ g. (str g, g + 1);
  now_iso = λ g. ("1", g + 1);
  hash_mod = λ s n. 0;
  randint-ge = λ a b g h. omega arith;
  randint-le = λ a b g h. h;
}

instance abbrev reals : Reals ℕ ℕ
reals = record { uniform = λ a b g. (a, g + 1) }

abbrev clocked : Platform ℕ
clocked = record platform { fromisoformat = λ s. some (record { reading = 1000; offset = none }) }

abbrev received_at : ℕ → Draw
received_at i = record { now = 1000; uuid4 = "u" }

abbrev token_env : ℕ → Env
token_env i = record { wall = 1000; token = str i }

abbrev ten_failures : Params
ten_failures = record { max_failures = 10; window_seconds = 60 }

abbrev logins : List (SecurityEvent ℕ)
logins = failed_login "e1" 30 ∷ failed_login "e2" 20 ∷ []

abbrev two_failures : Params
two_failures = record { max_failures = 2; window_seconds = 60 }

-- JSON texts as the values that they stand for
abbrev json : Json ℕ (Value ℕ)
json = record {
  loads = λ v. some v;
  dumps = λ v. v;
  is_nonempty = λ v. true;
  float_of = λ s. none;
  loads-dumps = λ v. refl;
  dumps-nonempty = λ v. refl;
}

abbrev control_settings : SimulatorSettings ℕ
control_settings = default_simulator_settings

control-IsSound : IsSound json refl control_settings
unfolding mem
control-IsSound = (omega arith, refl, (refl, refl))

abbrev rate_patch : Fields ℕ
rate_patch = field "rate" (int (pos 50000)) (field "burst" (bool true) end)

nothing_stored : ReadsValid json refl control_settings none
unfolding get_state default_state get mem
nothing_stored now = (default_state control_settings now, refl, (omega arith, refl, (refl, refl)))

set_state_lem_example :
    ReadsValid json refl control_settings
      (set_state json control_settings rate_patch "api" 5 none).1
    × IsAnswer json refl control_settings none
        (set_state json control_settings rate_patch "api" 5 none)
unfolding get
set_state_lem_example =
    set_state_lem json refl control_settings rate_patch "api" 5 none control-IsSound
      (refl, (refl, tt)) nothing_stored

abbrev stopped : EngineState ℕ
stopped = record {
  running = false;
  rate = 50;
  scenario = "normal";
  attack_ratio = 50;
  burst_until = 0;
}

abbrev desired : Fields ℕ
desired = field "rate" (int (pos 900)) (
    field "scenario" (text "port_scan")
      (field "attack_ratio" (float 100) (field "burst" (bool true) end)))

abbrev no_repr : Value ℕ → String
no_repr v = ""

sync_from_redis_lem_example :
    ((sync_from_redis json no_repr 5 (some (json.dumps (dict desired))) stopped).0
      ≡ taken json no_repr 5 desired 900 "port_scan" 100 stopped)
    × ((now' : ℕ)
        → sync_from_redis json no_repr now'
            (sync_from_redis json no_repr 5 (some (json.dumps (dict desired))) stopped).1
            (taken json no_repr 5 desired 900 "port_scan" 100 stopped)
          ≡ (
            taken json no_repr 5 desired 900 "port_scan" 100 stopped,
            (sync_from_redis json no_repr 5 (some (json.dumps (dict desired))) stopped).1,
          ))
unfolding get
sync_from_redis_lem_example =
    sync_from_redis_lem json no_repr 5 desired 900 "port_scan" 100 stopped refl refl refl

abbrev first_of : List (Fields ℕ) → Fields ℕ
first_of [] = end
first_of (d ∷ ds) = d

abbrev event_in : Outcome (SecurityEvent ℕ) → SecurityEvent ℕ
event_in (ok e) = e
event_in (raised m) = failed_login "e0" 0

abbrev probe_payload : Fields ℕ
probe_payload = first_of (sql_attack {G = ℕ} none 0).0

scenario_of-IsTyped_example :
    IsTyped clocked (event_in (from_raw clocked (received_at 0) probe_payload))
unfolding scenario_of sql_attack make_event from_raw normalize_ts clamp_skew get
scenario_of-IsTyped_example =
    scenario_of-IsTyped {R = ℕ} {G = ℕ} clocked (received_at 0) "sql_attack" (sql_attack none) 0
      probe_payload (event_in (from_raw clocked (received_at 0) probe_payload)) refl (inl refl) refl
