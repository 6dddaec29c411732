-- ===== src/Control/Valid.antt =====
-- backend/app/services/simulator_control.py: whatever patch is sent, the stored state stays in range.
use real_time_distributed_si.Prelude.{
  ◌≤◌, ◌≡◌, refl, sym, ◌∙◌, String, Bool, true, false, Option, none, some, if◌then◌else◌, mem,
  str_eq,
}
use mathlib.Core.Path.{subst}
use real_time_distributed_si.Floats.{Floats}
use real_time_distributed_si.Value.{Value, Fields, float, text, dict, get, put, update}
use real_time_distributed_si.Value.Dict.{get-update, put-IsDict, update-IsDict, IsDict, or_get}
use real_time_distributed_si.Detection.{Outcome, ok, raised, then_do, ok_inj, then_do-ok}
use real_time_distributed_si.Control.{
  Json, SimulatorSettings, control_scenarios, default_state, updated_by, get_state, checked_patch,
  patched, set_state,
}
use real_time_distributed_si.Control.Ranges.{
  IfGiven, IsGiven, or_get-IsGiven, IsRate, IsScenario, IsRatio, IsValid, IsRanged, default-IsDict,
  updated_by-IsDict, get-there, checked_patch-IsRanged,
}

module _ {R T : Type 0} ⦃F : Floats R⦄ (json : Json R T)
    (order : F.lt (F.dec 10 1) (F.dec 0 1) ≡ false) where
  patched-IsValid :
      (state p : Fields R) (now : R) (actor : String)
      → IsDict state
      → IsValid state
      → IsDict p
      → IsRanged p
      → IsDict (patched state p now actor) × IsValid (patched state p now actor)
  unfolding patched
  patched-IsValid state p now actor dict_s (rate, scenario, ratio) dict_p
        (rate', scenario', ratio') =
      let whole = update state p in
      let timed = put "updated_at" (float now) whole in
      let read : (k : String)
          → str_eq "updated_by" k ≡ false
          → str_eq "updated_at" k ≡ false
          → get k (put "updated_by" (text actor) timed) ≡ or_get (get k p) (get k state) =
        λ k ne ne'.
          get-there "updated_by" k (text actor) timed ne
          ∙ get-there "updated_at" k (float now) whole ne'
          ∙ get-update k state p dict_p in
      (
        put-IsDict _ _ timed (put-IsDict _ _ whole (update-IsDict state p dict_s)),
        (
          subst (IsGiven IsRate) (sym (read "rate" refl refl))
              (or_get-IsGiven IsRate _ _ rate' rate),
          subst (IsGiven IsScenario) (sym (read "scenario" refl refl))
              (or_get-IsGiven IsScenario _ _ scenario' scenario),
          subst (IsGiven IsRatio) (sym (read "attack_ratio" refl refl))
              (or_get-IsGiven IsRatio _ _ ratio' ratio),
        ),
      )

  -- every later reading of what is stored gives a state in range
  abbrev pub ReadsValid : SimulatorSettings R → Option T → Type 0
  ReadsValid cfg stored =
      (now : R) → (state : Fields R) × (get_state json cfg now stored ≡ ok state) × IsValid state

  get_state-IsDict :
      (cfg : SimulatorSettings R) (now : R) (stored : Option T) (s : Fields R)
      → get_state json cfg now stored ≡ ok s
      → IsDict s
  unfolding get_state
  get_state-IsDict cfg now none s e = subst IsDict (ok_inj e) (default-IsDict cfg now)
  get_state-IsDict cfg now (some raw) s e = by_text (json.is_nonempty raw) e
    where
      by_text :
          (b : Bool)
          → (if b
              then updated_by (default_state cfg now) (json.loads raw)
              else ok (default_state cfg now))
            ≡ ok s
          → IsDict s
      by_text true e = updated_by-IsDict (default_state cfg now) s _ (default-IsDict cfg now) e
      by_text false e = subst IsDict (ok_inj e) (default-IsDict cfg now)

  -- settings whose default state is in range
  abbrev pub IsSound : SimulatorSettings R → Type 0
  IsSound cfg =
      (cfg.events_per_second ≤ 20000)
      × (mem cfg.simulator_scenario control_scenarios ≡ true)
      × IsRatio (float cfg.simulator_attack_ratio)

  default-IsValid :
      (cfg : SimulatorSettings R) (now : R) → IsSound cfg → IsValid (default_state cfg now)
  unfolding default_state get
  default-IsValid cfg now (rate, scenario, ratio) = (rate, scenario, ratio)

  -- what is read of a state that was written
  get_state-dumps :
      (cfg : SimulatorSettings R) (now : R) (state : Fields R)
      → get_state json cfg now (some (json.dumps (dict state)))
        ≡ ok (update (default_state cfg now) state)
  unfolding get_state updated_by
  get_state-dumps cfg now state =
      rw (json.dumps-nonempty (dict state), json.loads-dumps (dict state)) refl

  given-IfGiven : (P : Value R → Type 0) (o : Option (Value R)) → IsGiven P o → IfGiven P o
  given-IfGiven P none h = tt
  given-IfGiven P (some v) h = h

  written-IsValid :
      (cfg : SimulatorSettings R) (now : R) (state : Fields R)
      → IsSound cfg
      → IsDict state
      → IsValid state
      → IsValid (update (default_state cfg now) state)
  written-IsValid cfg now state sound h (rate, scenario, ratio) =
      let base = default-IsValid cfg now sound in
      let read : (k : String)
          → get k (update (default_state cfg now) state)
            ≡ or_get (get k state) (get k (default_state cfg now)) =
        λ k. get-update k (default_state cfg now) state h in
      (
        subst (IsGiven IsRate) (sym (read "rate"))
            (or_get-IsGiven IsRate _ _ (given-IfGiven IsRate _ rate) base.0),
        subst (IsGiven IsScenario) (sym (read "scenario"))
            (or_get-IsGiven IsScenario _ _ (given-IfGiven IsScenario _ scenario) base.1),
        subst (IsGiven IsRatio) (sym (read "attack_ratio"))
            (or_get-IsGiven IsRatio _ _ (given-IfGiven IsRatio _ ratio) base.2),
      )

  -- what an answer of `set_state` and the store after it must be
  abbrev pub IsAnswer : SimulatorSettings R → Option T → Outcome (Fields R) × Option T → Type 0
  IsAnswer cfg stored (ok state, stored') =
      IsValid state
      × ((now : R) → get_state json cfg now stored' ≡ ok (update (default_state cfg now) state))
  IsAnswer cfg stored (raised m, stored') = stored' ≡ stored

  -- Whatever patch is sent, with sound settings, and every reading of the store in range before: every
  -- reading is in range afterwards, that is, a rate up to 20,000, a scenario of the list and an attack
  -- ratio between 0 and 1. An accepted patch answers such a state, and the next reading is the
  -- default state updated by it; a refused one leaves the store as it was.
  pub set_state_lem :
      (cfg : SimulatorSettings R) (patch : Fields R) (actor : String) (now : R) (stored : Option T)
      → IsSound cfg
      → IsDict patch
      → ReadsValid cfg stored
      → ReadsValid cfg (set_state json cfg patch actor now stored).1
        × IsAnswer cfg stored (set_state json cfg patch actor now stored)
  unfolding set_state
  set_state_lem cfg patch actor now stored sound dict_p valid = answered _ refl
    where
      attempt : Outcome (Fields R)
      attempt =
          then_do (get_state json cfg now stored)
            (λ state. then_do (checked_patch json patch) (λ p. ok (patched state p now actor)))

      kept : (state : Fields R) → attempt ≡ ok state → IsDict state × IsValid state
      kept state e =
          let (s, got, more) = then_do-ok _ _ state e in
          let (p, checked, last) = then_do-ok _ _ state more in
          let (s', got', valid_s) = valid now in
          let (dict_q, ranged_q) = checked_patch-IsRanged json order patch p dict_p checked in
          let valid_0 = subst IsValid (ok_inj (sym got' ∙ got)) valid_s in
          let (d, v) =
            patched-IsValid s p now actor (get_state-IsDict cfg now stored s got) valid_0 dict_q
              ranged_q in
          (subst IsDict (ok_inj last) d, subst IsValid (ok_inj last) v)

      result : Outcome (Fields R) → Outcome (Fields R) × Option T
      result (ok state) = (ok state, some (json.dumps (dict state)))
      result (raised m) = (raised m, stored)

      answered :
          (o : Outcome (Fields R))
          → attempt ≡ o
          → ReadsValid cfg (result o).1 × IsAnswer cfg stored (result o)
      answered (ok state) e =
          let (d, v) = kept state e in
          (
            λ now'. (
              update (default_state cfg now') state,
              get_state-dumps cfg now' state,
              written-IsValid cfg now' state sound d v,
            ),
            (v, λ now'. get_state-dumps cfg now' state),
          )
      answered (raised m) e = (valid, refl)
