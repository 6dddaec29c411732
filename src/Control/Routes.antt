-- ===== src/Control/Routes.antt =====
-- backend/app/api/routes/simulator.py: the requests that change the desired state. An HTTPException is
-- `raised` with its status, before anything is written.
use real_time_distributed_si.Prelude.{
  ℕ, pos, String, Bool, true, false, Option, none, some, if◌then◌else◌,
}
use real_time_distributed_si.Floats.{Floats}
use real_time_distributed_si.Value.{Value, Fields, bool, int, float, text, end, field, get, update}
use real_time_distributed_si.Detection.{Outcome, raised}
use real_time_distributed_si.Control.{Json, SimulatorSettings, scenario_allowed, set_state}

-- `SimulatorConfig`, whose fields are validated by pydantic
pub record SimulatorConfig (R : Type 0) : Type 0 where
  pub rate : Option ℕ
  pub scenario : Option String
  pub attack_ratio : Option R
  pub burst : Option Bool

module _ {R : Type 0} where
  -- a field of `model_dump` that is not None, before the others
  unfoldable pub dumped : {A : Type 0} → String → (A → Value R) → Option A → Fields R → Fields R
  dumped k value none rest = rest
  dumped k value (some a) rest = field k (value a) rest

  -- `{k: v for k, v in cfg.model_dump().items() if v is not None}`
  unfoldable pub config_patch : SimulatorConfig R → Fields R
  unfolding dumped
  config_patch cfg =
      dumped "rate" (λ n. int (pos n)) cfg.rate
        (dumped "scenario" text cfg.scenario
          (dumped "attack_ratio" float cfg.attack_ratio (dumped "burst" bool cfg.burst end)))

  abbrev has_fields : Fields R → Bool
  has_fields end = false
  has_fields (field k v d) = true

  -- the patch of `start`
  unfoldable pub start_patch : Option (SimulatorConfig R) → Fields R
  unfolding config_patch
  start_patch none = field "running" (bool true) end
  start_patch (some cfg) = update (field "running" (bool true) end) (config_patch cfg)

module _ {R T : Type 0} ⦃F : Floats R⦄ (json : Json R T) (cfg : SimulatorSettings R) where
  -- a known scenario is sent on, another answers 422
  unfoldable pub sent_on : Fields R → String → R → Option T → Outcome (Fields R) × Option T
  unfolding scenario_allowed set_state
  sent_on patch actor now stored =
      if scenario_allowed (get "scenario" patch)
      then set_state json cfg patch actor now stored
      else (raised "422", stored)

  -- `start`
  unfoldable pub start_simulator :
      Option (SimulatorConfig R) → String → R → Option T → Outcome (Fields R) × Option T
  unfolding start_patch sent_on
  start_simulator c actor now stored = sent_on (start_patch c) actor now stored

  -- `stop`
  unfoldable pub stop_simulator : String → R → Option T → Outcome (Fields R) × Option T
  unfolding set_state
  stop_simulator actor now stored =
      set_state json cfg (field "running" (bool false) end) actor now stored

  -- `configure`
  unfoldable pub configure_simulator :
      SimulatorConfig R → String → R → Option T → Outcome (Fields R) × Option T
  unfolding config_patch sent_on
  configure_simulator c actor now stored =
      if has_fields (config_patch c)
      then sent_on (config_patch c) actor now stored
      else (raised "422", stored)
