-- ===== src/Simulator/Sync.antt =====
-- simulator/simulator/engine.py: `_sync_from_redis`, which takes over the desired state. An exception ends
-- it where it is raised, and what was assigned before stays. A negative rate, at which the simulator
-- never runs, is 0.
use real_time_distributed_si.Prelude.{
  ℕ, ◌+◌, ◌*◌, ◌≡◌, refl, sym, ap, ◌∙◌, ℤ, pos, negsuc, String, Bool, false, Option, none, some,
  if◌then◌else◌, inl, inr, Bool-cases, str_eq,
}
use real_time_distributed_si.Floats.{Floats}
use real_time_distributed_si.Event.{microseconds}
use real_time_distributed_si.Value.{Value, Fields, bool, int, float, text, dict, get, put}
use real_time_distributed_si.Value.Convert.{int_value, value_text, value_truthy}
use real_time_distributed_si.Value.Dict.{get-put}
use real_time_distributed_si.Normalize.{or_else}
use real_time_distributed_si.Control.{Json, float_value}
use real_time_distributed_si.Simulator.{EngineState}

abbrev rate_at : ℤ → ℕ
rate_at (pos n) = n
rate_at (negsuc n) = 0

module _ {R T : Type 0} ⦃F : Floats R⦄ (json : Json R T) (repr : Value R → String) where
  -- `if data.get("burst"): ...`: the state, and the data to write back
  unfoldable pub pulse : ℕ → Fields R → EngineState R → EngineState R × Option (Fields R)
  unfolding value_truthy
  pulse now d st =
      if value_truthy (or_else (get "burst" d) (bool false))
      then (record st { burst_until = now + 8 * microseconds }, some (put "burst" (bool false) d))
      else (st, none)

  -- the assignments from the rate on; none is an exception
  unfoldable pub with_ratio :
      ℕ → Fields R → Option R → EngineState R → EngineState R × Option (Fields R)
  unfolding pulse
  with_ratio now d none st = (st, none)
  with_ratio now d (some x) st = pulse now d (record st { attack_ratio = x })

  unfoldable pub with_rate :
      ℕ → Fields R → Option ℤ → EngineState R → EngineState R × Option (Fields R)
  unfolding with_ratio float_value value_text
  with_rate now d none st = (st, none)
  with_rate now d (some n) st =
      let named = record st {
        rate = rate_at n;
        scenario = value_text repr (or_else (get "scenario" d) (text st.scenario));
      } in
      with_ratio now d (float_value json (or_else (get "attack_ratio" d) (float st.attack_ratio)))
        named

  -- the body behind `json.loads`
  unfoldable pub take_over : ℕ → Fields R → EngineState R → EngineState R × Option (Fields R)
  unfolding with_rate int_value value_truthy
  take_over now d st =
      let running = value_truthy (or_else (get "running" d) (bool st.running)) in
      with_rate now d (int_value (or_else (get "rate" d) (int (pos st.rate))))
        (record st { running = running })

  abbrev written : Option T → Option (Fields R) → Option T
  written stored none = stored
  written stored (some d) = some (json.dumps (dict d))

  abbrev take_value : ℕ → Option (Value R) → Option T → EngineState R → EngineState R × Option T
  take_value now none stored st = (st, stored)
  take_value now (some (dict d)) stored st =
      ((take_over now d st).0, written stored (take_over now d st).1)
  take_value now (some v) stored st = (st, stored)

  -- `_sync_from_redis`, where the control by way of Redis is on
  unfoldable pub sync_from_redis : ℕ → Option T → EngineState R → EngineState R × Option T
  unfolding take_over
  sync_from_redis now none st = (st, none)
  sync_from_redis now (some raw) st =
      if json.is_nonempty raw then take_value now (json.loads raw) (some raw) st else (st, some raw)

  -- what the state takes over of an object
  abbrev pub taken_burst : ℕ → Fields R → ℕ → ℕ
  taken_burst now d old =
      if value_truthy (or_else (get "burst" d) (bool false)) then now + 8 * microseconds else old

  abbrev pub taken : ℕ → Fields R → ℕ → String → R → EngineState R → EngineState R
  taken now d n s x st = record {
    running = value_truthy (or_else (get "running" d) (bool st.running));
    rate = n;
    scenario = s;
    attack_ratio = x;
    burst_until = taken_burst now d st.burst_until;
  }

  take_over_lem :
      (now : ℕ) (d : Fields R) (n : ℕ) (s : String) (x : R) (st : EngineState R)
      → get "rate" d ≡ some (int (pos n))
      → get "scenario" d ≡ some (text s)
      → get "attack_ratio" d ≡ some (float x)
      → take_over now d st
        ≡ pulse now d (record {
          running = value_truthy (or_else (get "running" d) (bool st.running));
          rate = n;
          scenario = s;
          attack_ratio = x;
          burst_until = st.burst_until;
        })
  unfolding take_over with_rate with_ratio float_value int_value value_text
  take_over_lem now d n s x st rate scenario ratio = rw (rate, scenario, ratio) refl

  sync-dumps :
      (now : ℕ) (d : Fields R) (st : EngineState R)
      → sync_from_redis now (some (json.dumps (dict d))) st
        ≡ ((take_over now d st).0, written (some (json.dumps (dict d))) (take_over now d st).1)
  unfolding sync_from_redis
  sync-dumps now d st = rw (json.dumps-nonempty (dict d), json.loads-dumps (dict d)) refl

  -- taking over `running` again changes nothing
  running_again :
      (o : Option (Value R)) (b : Bool)
      → value_truthy (or_else o (bool (value_truthy (or_else o (bool b)))))
        ≡ value_truthy (or_else o (bool b))
  unfolding value_truthy
  running_again none b = refl
  running_again (some v) b = refl

  -- the object without a burst is taken over once more
  settled :
      (now : ℕ) (d : Fields R) (n : ℕ) (s : String) (x : R) (st : EngineState R)
      → get "rate" d ≡ some (int (pos n))
      → get "scenario" d ≡ some (text s)
      → get "attack_ratio" d ≡ some (float x)
      → value_truthy (or_else (get "burst" d) (bool false)) ≡ false
      → st.rate ≡ n
      → st.scenario ≡ s
      → st.attack_ratio ≡ x
      → value_truthy (or_else (get "running" d) (bool st.running)) ≡ st.running
      → take_over now d st ≡ (st, none)
  unfolding pulse
  settled now d n s x st rate scenario ratio quiet r c a run =
      take_over_lem now d n s x st rate scenario ratio ∙ rw (quiet, sym r, sym c, sym a, run) refl

  after_pulse :
      (now : ℕ) (d : Fields R) (n : ℕ) (s : String) (x : R) (st : EngineState R)
      → get "rate" d ≡ some (int (pos n))
      → get "scenario" d ≡ some (text s)
      → get "attack_ratio" d ≡ some (float x)
      → (e : Fields R) × (sync_from_redis now (some (json.dumps (dict d))) st
          ≡ (taken now d n s x st, some (json.dumps (dict e))))
        × ((now' : ℕ) → take_over now' e (taken now d n s x st) ≡ (taken now d n s x st, none))
  unfolding pulse
  after_pulse now d n s x st rate scenario ratio =
      elim (Bool-cases (value_truthy (or_else (get "burst" d) (bool false)))) [
        | inl burst ↦
            let e = put "burst" (bool false) d in
            let same : (k : String) → str_eq "burst" k ≡ false → get k e ≡ get k d =
              λ k ne. get-put "burst" k (bool false) d ∙ rw ne refl in
            (
              e,
              sync-dumps now d st
                  ∙ rw (take_over_lem now d n s x st rate scenario ratio) (rw burst refl),
              λ now'.
                  settled now' e n s x (taken now d n s x st) (same "rate" refl ∙ rate)
                    (same "scenario" refl ∙ scenario) (same "attack_ratio" refl ∙ ratio)
                    (ap (λ o. value_truthy (or_else o (bool false)))
                      (get-put "burst" "burst" (bool false) d))
                    refl refl refl
                    (ap (λ o. value_truthy (or_else o (bool (taken now d n s x st).running)))
                        (same "running" refl)
                      ∙ running_again (get "running" d) st.running),
            )
        | inr quiet ↦ (
          d,
          sync-dumps now d st
              ∙ rw (take_over_lem now d n s x st rate scenario ratio) (rw quiet refl),
          λ now'.
              settled now' d n s x (taken now d n s x st) rate scenario ratio quiet refl refl refl
                (running_again (get "running" d) st.running),
        )
      ]

  -- The simulator takes over the rate, the scenario and the attack ratio of a stored object that has
  -- them, with a rate that is an integer from 0 on, a text and a float; whether it runs; and a burst of eight seconds where one is asked for; and it is a pulse: taking
  -- the store over again at any later time changes neither the state nor the store.
  pub sync_from_redis_lem :
      (now : ℕ) (d : Fields R) (n : ℕ) (s : String) (x : R) (st : EngineState R)
      → get "rate" d ≡ some (int (pos n))
      → get "scenario" d ≡ some (text s)
      → get "attack_ratio" d ≡ some (float x)
      → ((sync_from_redis now (some (json.dumps (dict d))) st).0 ≡ taken now d n s x st)
        × ((now' : ℕ)
            → sync_from_redis now'
                (sync_from_redis now (some (json.dumps (dict d))) st).1
                (taken now d n s x st)
              ≡ (taken now d n s x st, (sync_from_redis now (some (json.dumps (dict d))) st).1))
  sync_from_redis_lem now d n s x st rate scenario ratio =
      let (e, first, again) = after_pulse now d n s x st rate scenario ratio in
      (
        ap (λ r. r.0) first,
        λ now'. rw first (sync-dumps now' e (taken now d n s x st) ∙ rw (again now') refl),
      )
