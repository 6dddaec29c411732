-- ===== src/Control.antt =====
-- backend/app/services/simulator_control.py and backend/app/api/routes/simulator.py: the desired state
-- of the simulator, a JSON object under one key of Redis. What is stored there is an object, since
-- nothing else is written: another kind of JSON text is taken for an error. The texts that `json` and
-- `float` read are parameters.
pub mod Ranges
pub mod Valid
pub mod Routes
use real_time_distributed_si.Prelude.{
  ℕ, ◌≡◌, ℤ, pos, negsuc, String, Bool, true, false, Option, none, some, List, [], ◌∷◌, ◌||◌,
  if◌then◌else◌, min, mem, fmt,
}
use real_time_distributed_si.Floats.{Floats, flt, fmin, fmax, fsub, dec, of_ℕ}
use real_time_distributed_si.Value.{
  Value, Fields, null, bool, int, float, text, list, dict, nil, cons, end, field, get, put, update,
}
use real_time_distributed_si.Value.Convert.{int_value}
use real_time_distributed_si.Detection.{Outcome, ok, raised, then_do}

-- `json.loads`, none for the JSONDecodeError, and `json.dumps`, on texts of a type of their own, with
-- the truth of such a text, and `float` of a text
pub record Json (R T : Type 0) : Type 0 where
  pub loads : T → Option (Value R)
  pub dumps : Value R → T
  pub is_nonempty : T → Bool
  pub float_of : String → Option R
  -- what is written is read back, and is never the empty text
  pub loads-dumps : (v : Value R) → loads (dumps v) ≡ some v
  pub dumps-nonempty : (v : Value R) → is_nonempty (dumps v) ≡ true

-- the settings that the default state takes from core/config.py
pub record SimulatorSettings (R : Type 0) : Type 0 where
  pub events_per_second : ℕ
  pub simulator_scenario : String
  pub simulator_attack_ratio : R
  pub simulator_autostart : Bool

abbrev pub default_simulator_settings : {R : Type 0} ⦃F : Floats R⦄ → SimulatorSettings R
default_simulator_settings = record {
  events_per_second = 50;
  simulator_scenario = "normal";
  simulator_attack_ratio = dec 5 2;
  simulator_autostart = false;
}

-- `SCENARIOS`
abbrev pub control_scenarios : List String
control_scenarios =
    "normal" ∷ "ssh_brute_force" ∷ "port_scan" ∷ "credential_attack" ∷ "privilege_escalation"
    ∷ "data_exfiltration" ∷ "web_attack" ∷ "mixed" ∷ []

module _ {R : Type 0} where
  -- `_default_state`
  unfoldable pub default_state : SimulatorSettings R → R → Fields R
  default_state cfg now = field "running" (bool cfg.simulator_autostart) (
      field "rate" (int (pos cfg.events_per_second)) (
        field "scenario" (text cfg.simulator_scenario) (
          field "attack_ratio" (float cfg.simulator_attack_ratio) (
            field "burst" (bool false)
              (field "updated_at" (float now) (field "updated_by" (text "config") end))))))

  -- `state.update(...)` with what `json.loads` gave
  unfoldable pub updated_by : Fields R → Option (Value R) → Outcome (Fields R)
  updated_by state none = ok state
  updated_by state (some (dict d)) = ok (update state d)
  updated_by state (some v) = raised "TypeError"

  -- `get_state`
  unfoldable pub get_state :
      {T : Type 0} → Json R T → SimulatorSettings R → R → Option T → Outcome (Fields R)
  unfolding default_state updated_by
  get_state json cfg now none = ok (default_state cfg now)
  get_state json cfg now (some raw) =
      if json.is_nonempty raw
      then updated_by (default_state cfg now) (json.loads raw)
      else ok (default_state cfg now)

  -- the test on the scenario of a patch
  unfoldable pub scenario_allowed : Option (Value R) → Bool
  scenario_allowed none = true
  scenario_allowed (some (text s)) = mem s control_scenarios
  scenario_allowed (some v) = false

  -- the new state
  unfoldable pub patched : Fields R → Fields R → R → String → Fields R
  patched state patch now actor =
      put "updated_by" (text actor) (put "updated_at" (float now) (update state patch))

-- `max(0, min(n, 20_000))`
unfoldable pub clamp_rate : ℤ → ℕ
clamp_rate (pos n) = min n 20000
clamp_rate (negsuc n) = 0

module _ {R : Type 0} where
  abbrev ranged : Fields R → String → Option (Value R) → Outcome (Fields R)
  ranged patch k none = raised "ValueError"
  ranged patch k (some v) = ok (put k v patch)

  abbrev rate_of : Option ℤ → Option (Value R)
  rate_of none = none
  rate_of (some n) = some (int (pos (clamp_rate n)))

module _ {R : Type 0} ⦃F : Floats R⦄ where
  -- `max(0.0, min(x, 1.0))`
  unfoldable pub clamp_ratio : R → R
  clamp_ratio x = fmax (dec 0 1) (fmin x (dec 10 1))

  abbrev ratio_of : Option R → Option (Value R)
  ratio_of none = none
  ratio_of (some x) = some (float (clamp_ratio x))

  -- `if "rate" in patch: ...`
  unfoldable pub ranged_rate : Fields R → Option (Value R) → Outcome (Fields R)
  ranged_rate patch none = ok patch
  ranged_rate patch (some v) = ranged patch "rate" (rate_of (int_value v))

module _ {R T : Type 0} ⦃F : Floats R⦄ (json : Json R T) where
  -- `float(v)`; none for the TypeError or the ValueError
  unfoldable pub float_value : Value R → Option R
  float_value null = none
  float_value (bool b) = some (of_ℕ (if b then 1 else 0))
  float_value (int (pos n)) = some (of_ℕ n)
  float_value (int (negsuc n)) = some (F.neg (of_ℕ (Prim.Native.Nat.suc n)))
  float_value (float x) = some x
  float_value (text s) = json.float_of s
  float_value (list vs) = none
  float_value (dict d) = none

  -- `if "attack_ratio" in patch: ...`
  unfoldable pub ranged_ratio : Fields R → Option (Value R) → Outcome (Fields R)
  unfolding float_value clamp_ratio
  ranged_ratio patch none = ok patch
  ranged_ratio patch (some v) = ranged patch "attack_ratio" (ratio_of (float_value v))

  -- the checks of `set_state`, which give the patch in range
  unfoldable pub checked_patch : Fields R → Outcome (Fields R)
  unfolding scenario_allowed ranged_rate ranged_ratio
  checked_patch patch =
      if scenario_allowed (get "scenario" patch)
      then then_do (ranged_rate patch (get "rate" patch))
          (λ p. ranged_ratio p (get "attack_ratio" p))
      else raised "ValueError"

  -- `set_state`: the new state, and what Redis holds after it
  unfoldable pub set_state :
      SimulatorSettings R → Fields R → String → R → Option T → Outcome (Fields R) × Option T
  unfolding get_state checked_patch patched
  set_state cfg patch actor now stored =
      elim (then_do (get_state json cfg now stored)
        (λ state. then_do (checked_patch patch) (λ p. ok (patched state p now actor)))) [
          | ok state ↦ (ok state, some (json.dumps (dict state)))
          | raised m ↦ (raised m, stored)
        ]
