-- ===== src/Control/Ranges.antt =====
-- backend/app/services/simulator_control.py: a patch that is accepted holds
-- values in range.
use real_time_distributed_si.Prelude.{
  ◌≤◌, ◌≡◌, refl, sym, ap, ◌∙◌, ℤ, pos, negsuc, String, Bool, true, false, Option, none, some,
  arith, if◌then◌else◌, mem, str_eq,
}
use mathlib.Core.Path.{subst}
use mathlib.Core.Bool.{false≢true}
use real_time_distributed_si.Floats.{Floats, flt, fmin, fmax, dec, fmax-ge_left}
use real_time_distributed_si.Value.{Value, Fields, int, float, text, dict, get, put}
use real_time_distributed_si.Value.Convert.{int_value}
use real_time_distributed_si.Value.Dict.{get-put, put-IsDict, update-IsDict, IsDict, or_get}
use real_time_distributed_si.Detection.{ok, raised, then_do, ok_inj, then_do-ok}
use real_time_distributed_si.Control.{
  Json, SimulatorSettings, control_scenarios, default_state, updated_by, scenario_allowed,
  clamp_rate, clamp_ratio, ranged, ranged_rate, ranged_ratio, rate_of, ratio_of, float_value,
  checked_patch,
}

module _ {R : Type 0} where
  -- a key that may be missing, and one that may not
  abbrev pub IfGiven : (Value R → Type 0) → Option (Value R) → Type 0
  IfGiven P none = Unit
  IfGiven P (some v) = P v

  abbrev pub IsGiven : (Value R → Type 0) → Option (Value R) → Type 0
  IsGiven P none = ⊥
  IsGiven P (some v) = P v

  pub or_get-IsGiven :
      (P : Value R → Type 0) (a b : Option (Value R))
      → IfGiven P a
      → IsGiven P b
      → IsGiven P (or_get a b)
  or_get-IsGiven P none b h k = k
  or_get-IsGiven P (some v) b h k = h

  abbrev pub IsRate : Value R → Type 0
  IsRate (int (pos n)) = n ≤ 20000
  IsRate v = ⊥

  abbrev pub IsScenario : Value R → Type 0
  IsScenario (text s) = mem s control_scenarios ≡ true
  IsScenario v = ⊥

  pub default-IsDict : (cfg : SimulatorSettings R) (now : R) → IsDict (default_state cfg now)
  unfolding default_state get
  default-IsDict cfg now = (refl, (refl, (refl, (refl, (refl, (refl, (refl, tt)))))))

  pub updated_by-IsDict :
      (state s : Fields R) (o : Option (Value R))
      → IsDict state
      → updated_by state o ≡ ok s
      → IsDict s
  unfolding updated_by
  updated_by-IsDict state s none h e = subst IsDict (ok_inj e) h
  updated_by-IsDict state s (some (dict d)) h e = subst IsDict (ok_inj e) (update-IsDict state d h)
  updated_by-IsDict state s (some v) h e = absurd (ground arith)

clamp_rate-le : (n : ℤ) → clamp_rate n ≤ 20000
unfolding clamp_rate
clamp_rate-le (pos n) = ground arith
clamp_rate-le (negsuc n) = ground arith

module _ {R : Type 0} ⦃F : Floats R⦄ where
  abbrev pub IsRatio : Value R → Type 0
  IsRatio (float x) = (flt x (dec 0 1) ≡ false) × (flt (dec 10 1) x ≡ false)
  IsRatio v = ⊥

  -- a rate up to 20,000, a scenario of the list, and a ratio between 0 and 1
  abbrev pub IsValid : Fields R → Type 0
  IsValid state =
      IsGiven IsRate (get "rate" state)
      × IsGiven IsScenario (get "scenario" state)
      × IsGiven IsRatio (get "attack_ratio" state)

  clamp_ratio-IsRatio :
      (x : R) → F.lt (F.dec 10 1) (F.dec 0 1) ≡ false → IsRatio (float (clamp_ratio x))
  unfolding clamp_ratio fmin fmax
  clamp_ratio-IsRatio x order =
      (fmax-ge_left (dec 0 1) (fmin x (dec 10 1)), ground (arith, F.lt_irrefl (F.dec 10 1), order))

  -- what a patch may say of the three keys
  abbrev pub IsRanged : Fields R → Type 0
  IsRanged p =
      IfGiven IsRate (get "rate" p)
      × IfGiven IsScenario (get "scenario" p)
      × IfGiven IsRatio (get "attack_ratio" p)

  -- a key that is put is the one read, and another key is as before
  get-here :
      (k : String) (v : Value R) (d : Fields R) → str_eq k k ≡ true → get k (put k v d) ≡ some v
  get-here k v d e = get-put k k v d ∙ rw e refl

  pub get-there :
      (k j : String) (v : Value R) (d : Fields R) → str_eq k j ≡ false → get j (put k v d) ≡ get j d
  get-there k j v d e = get-put k j v d ∙ rw e refl

  IsRate-step :
      (patch p : Fields R) (o : Option (Value R))
      → get "rate" patch ≡ o
      → IsDict patch
      → ranged_rate patch o ≡ ok p
      → IsDict p × IfGiven IsRate (get "rate" p) × (get "scenario" p ≡ get "scenario" patch)
  unfolding ranged_rate
  IsRate-step patch p none at h e =
      let same = ok_inj e in
      (
        subst IsDict same h,
        subst (λ q. IfGiven IsRate (get "rate" q)) same (subst (IfGiven IsRate) (sym at) tt),
        ap (get "scenario") (sym same),
      )
  IsRate-step patch p (some v) at h e = given (int_value v) e
    where
      given :
          (n : Option ℤ)
          → ranged patch "rate" (rate_of n) ≡ ok p
          → IsDict p × IfGiven IsRate (get "rate" p) × (get "scenario" p ≡ get "scenario" patch)
      given none e = absurd (ground arith)
      given (some n) e =
          let same = ok_inj e in
          let w : Value R = int (pos (clamp_rate n)) in
          (
            subst IsDict same (put-IsDict "rate" w patch h),
            subst (λ q. IfGiven IsRate (get "rate" q)) same
                (subst (IfGiven IsRate) (sym (get-here "rate" w patch refl)) (clamp_rate-le n)),
            ap (get "scenario") (sym same) ∙ get-there "rate" "scenario" w patch refl,
          )

module _ {R T : Type 0} ⦃F : Floats R⦄ (json : Json R T)
    (order : F.lt (F.dec 10 1) (F.dec 0 1) ≡ false) where
  ratio_step :
      (patch p : Fields R) (o : Option (Value R))
      → get "attack_ratio" patch ≡ o
      → IsDict patch
      → IfGiven IsRate (get "rate" patch)
      → IfGiven IsScenario (get "scenario" patch)
      → ranged_ratio json patch o ≡ ok p
      → IsDict p × IsRanged p
  unfolding ranged_ratio
  ratio_step patch p none at h rate scenario e =
      let same = ok_inj e in
      (
        subst IsDict same h,
        subst IsRanged same (rate, scenario, subst (IfGiven IsRatio) (sym at) tt),
      )
  ratio_step patch p (some v) at h rate scenario e = given (float_value json v) e
    where
      given :
          (x : Option R) → ranged patch "attack_ratio" (ratio_of x) ≡ ok p → IsDict p × IsRanged p
      given none e = absurd (ground arith)
      given (some x) e =
          let w : Value R = float (clamp_ratio x) in
          let k : String = "attack_ratio" in
          (
            subst IsDict (ok_inj e) (put-IsDict k w patch h),
            subst IsRanged (ok_inj e) (
              subst (IfGiven IsRate) (sym (get-there k "rate" w patch refl)) rate,
              subst (IfGiven IsScenario) (sym (get-there k "scenario" w patch refl)) scenario,
              subst (IfGiven IsRatio) (sym (get-here k w patch refl)) (clamp_ratio-IsRatio x order),
            ),
          )

  allowed-IsScenario : (o : Option (Value R)) → scenario_allowed o ≡ true → IfGiven IsScenario o
  unfolding scenario_allowed
  allowed-IsScenario none h = tt
  allowed-IsScenario (some (text s)) h = h
  allowed-IsScenario (some v) h = absurd (false≢true h)

  pub checked_patch-IsRanged :
      (patch p : Fields R) → IsDict patch → checked_patch json patch ≡ ok p → IsDict p × IsRanged p
  unfolding checked_patch
  checked_patch-IsRanged patch p h e = by_scenario (scenario_allowed (get "scenario" patch)) refl e
    where
      by_scenario :
          (b : Bool)
          → scenario_allowed (get "scenario" patch) ≡ b
          → (if b
              then then_do
                  (ranged_rate patch (get "rate" patch))
                  (λ q. ranged_ratio json q (get "attack_ratio" q))
              else raised "ValueError")
            ≡ ok p
          → IsDict p × IsRanged p
      by_scenario true fine e =
          let allowed = allowed-IsScenario (get "scenario" patch) fine in
          let (q, first, second) = then_do-ok _ _ p e in
          let (dict_q, rate, same) = IsRate-step patch q (get "rate" patch) refl h first in
          ratio_step q p (get "attack_ratio" q) refl dict_q rate
            (subst (IfGiven IsScenario) (sym same) allowed) second
      by_scenario false unknown e = absurd (ground arith)
