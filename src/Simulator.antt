-- ===== src/Simulator.antt =====
-- simulator/simulator/engine.py: the rate of the generator, the queue of attack events and their
-- sending. The generators of events, the random draws and the outcome of each send are arguments.
pub mod Rate
pub mod World
pub mod Models
pub mod Normal
pub mod Scenarios
pub mod Known
pub mod Sync
use real_time_distributed_si.Prelude.{
  ℕ, zero, suc, ◌+◌, ◌*◌, ◌/◌, ◌%◌, String, Bool, true, false, Option, none, some, List, [], ◌∷◌,
  ◌++◌, ◌&&◌, if◌then◌else◌, ltb, str_eq,
}
use real_time_distributed_si.Floats.{Floats, fmul, fdiv, flt, dec, of_ℕ, fmin}

-- `EngineState`, with the end of the burst
pub record EngineState (R : Type 0) : Type 0 where
  pub running : Bool
  pub rate : ℕ
  pub scenario : String
  pub attack_ratio : R
  pub burst_until : ℕ

-- the queue and the counters of `SimulatorEngine`
pub record Generator (A : Type 0) : Type 0 where
  pub queue : List A
  pub sent_total : ℕ
  pub sent_attack : ℕ
  pub scenario_runs : ℕ
  -- what the producer has taken, in order
  pub sent : List A

-- what a tick draws from outside: the clock, a number in [0, 1), the scenario that chance picks, the
-- events of a scenario (none for an unknown one), the normal events, and whether each send succeeds
pub record Chance (R A : Type 0) : Type 0 where
  pub now : ℕ
  pub random : R
  pub choice : String
  pub events_of : String → Option (List A)
  pub normal_event : ℕ → A
  pub sends : ℕ → Bool

-- `base + remainder`
unfoldable pub budget : ℕ → ℕ → ℕ
budget rate tick = rate / 10 + (if ltb (tick % 10) (rate % 10) then 1 else 0)

-- the keys of `_SCENARIO_ALIASES` that stand for themselves
abbrev pub dedicated : List String
dedicated =
    "ssh_brute_force" ∷ "port_scan" ∷ "credential_attack" ∷ "privilege_escalation"
    ∷ "data_exfiltration" ∷ "web_attack" ∷ "sql_attack" ∷ []

abbrev listed_in : String → List String → Bool
listed_in s [] = false
listed_in s (t ∷ ts) = if str_eq t s then true else listed_in s ts

module _ {A : Type 0} where
  abbrev enqueued : Option (List A) → Generator A → Generator A
  enqueued none g = g
  enqueued (some events) g = record g {
    queue = g.queue ++ events;
    scenario_runs = g.scenario_runs + 1;
  }

  -- `_enqueue_scenario`
  unfoldable pub enqueue_scenario : (String → Option (List A)) → String → Generator A → Generator A
  enqueue_scenario events_of name g = enqueued (events_of name) g

  abbrev is_idle : List A → Bool
  is_idle [] = true
  is_idle (a ∷ queue) = false

  -- the next event off the queue, or a normal one; it counts as sent only if the producer takes it
  abbrev pub taken : A → Bool → List A → Generator A → Generator A
  taken normal ok [] g = record g {
    queue = [];
    sent_total = if ok then g.sent_total + 1 else g.sent_total;
    sent = if ok then g.sent ++ normal ∷ [] else g.sent;
  }
  taken normal ok (a ∷ queue) g = record g {
    queue = queue;
    sent_attack = g.sent_attack + 1;
    sent_total = if ok then g.sent_total + 1 else g.sent_total;
    sent = if ok then g.sent ++ a ∷ [] else g.sent;
  }

  -- `_emit_tick`; `i` counts the events, and a failed send ends the tick
  unfoldable pub emit_tick : (ℕ → A) → (ℕ → Bool) → ℕ → ℕ → Generator A → Generator A
  emit_tick normal_event sends i zero g = g
  emit_tick normal_event sends i (suc n) g =
      let g' = taken (normal_event i) (sends i) g.queue g in
      let rest = emit_tick normal_event sends (suc i) n g' in if sends i then rest else g'

module _ {R A : Type 0} ⦃F : Floats R⦄ where
  -- `_maybe_launch_scenario`
  unfoldable pub maybe_launch_scenario : Chance R A → EngineState R → Generator A → Generator A
  unfolding enqueue_scenario
  maybe_launch_scenario c st g =
      if str_eq st.scenario "mixed"
      then (if flt c.random
            (fmin (dec 9 1) (fdiv (fdiv (fmul st.attack_ratio (of_ℕ st.rate)) (of_ℕ 20)) (of_ℕ 10)))
          then enqueue_scenario c.events_of c.choice g
          else g)
      else if listed_in st.scenario dedicated && (is_idle g.queue && flt c.random (dec 15 2))
      then enqueue_scenario c.events_of st.scenario g
      else g

  -- the part of a round of `run` that launches and sends
  unfoldable pub run_tick : Chance R A → EngineState R → ℕ → Generator A → Generator A
  unfolding emit_tick budget maybe_launch_scenario
  run_tick c st tick g =
      if st.running && ltb 0 st.rate
      then (let rate = if ltb c.now st.burst_until then st.rate * 10 else st.rate in
          emit_tick c.normal_event c.sends 0 (budget rate tick) (maybe_launch_scenario c st g))
      else g
