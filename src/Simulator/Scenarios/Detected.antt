-- ===== src/Simulator/Scenarios/Detected.antt =====
-- The brute-force attack of simulator/simulator/scenarios/ssh_brute_force.py against the rule of
-- backend/app/detection/rules/brute_force.py: generated, normalized by `from_raw`, and evaluated.
use real_time_distributed_si.Prelude.{ℕ, suc, ◌+◌, ◌*◌, ◌≤◌, ◌<◌, ◌≡◌, some, List, [], ◌∷◌}
use real_time_distributed_si.Floats.{Floats}
use real_time_distributed_si.Value.{Fields, text}
use real_time_distributed_si.Event.{SecurityEvent, microseconds}
use real_time_distributed_si.Redis.{Redis}
use real_time_distributed_si.Detection.{Detection, ok}
use real_time_distributed_si.Normalize.{Platform, Draw, coerce_ip, normalize_ts, from_raw}
use real_time_distributed_si.Simulator.World.{World}
use real_time_distributed_si.Simulator.Models.{external_ip}

-- the external addresses that the simulator draws are read as themselves
abbrev pub ReadsExternal : {R G : Type 0} ⦃F : Floats R⦄ → Platform R → World G → Type 0
ReadsExternal {G = G} pf w =
    (g : G)
    → coerce_ip pf (text (external_ip (w.randint 1 254 g).0))
      ≡ some (external_ip (w.randint 1 254 g).0)

module _ {R : Type 0} ⦃F : Floats R⦄ (pf : Platform R) (draws : ℕ → Draw) where
  -- `from_raw` accepts the payloads, and gives the events
  abbrev pub Received : ℕ → List (Fields R) → List (SecurityEvent R) → Type 0
  Received i [] [] = Unit
  Received i [] (e ∷ es) = ⊥
  Received i (d ∷ ds) [] = ⊥
  Received i (d ∷ ds) (e ∷ es) = (from_raw pf (draws i) d ≡ ok e) × Received (suc i) ds es

  -- the clock of the simulator stays in the window while the events are made
  abbrev pub IsPunctual : {G : Type 0} → World G → ℕ → ℕ → Type 0
  IsPunctual {G} w t0 window_seconds =
      (i : ℕ) (g : G)
      → (t : ℕ) × (normalize_ts pf (draws i).now (text (w.now_iso g).0) ≡ ok t)
        × (t0 ≤ t)
        × (t < t0 + window_seconds * microseconds)
