-- ===== src/Anomaly.antt =====
-- backend/app/detection/anomaly.py: the z-score of a metric against an exponentially weighted
-- baseline. The JSON text under a key of Redis is read back as the baseline it was written from; the
-- seven days until it expires are not modelled.
pub mod WarmUp
use real_time_distributed_si.Prelude.{
  ℕ, ◌+◌, String, Bool, Option, none, some, List, [], ◌∷◌, ◌&&◌, not, if◌then◌else◌, leb, str_eq,
  fmt, str,
}
use real_time_distributed_si.Floats.{
  Floats, fadd, fsub, fmul, fdiv, flt, dec, of_ℕ, round, fixed, fmin, fmax,
}
use real_time_distributed_si.Settings.{Settings}

pub record AnomalyResult (R : Type 0) : Type 0 where
  pub metric : String
  pub value : R
  pub baseline_mean : R
  pub baseline_std : R
  pub z_score : R
  pub anomaly_score : R
  pub anomaly_reason : String
  pub samples : ℕ

-- the state of a metric
pub record Baseline (R : Type 0) : Type 0 where
  pub mean : R
  pub var : R
  pub n : ℕ

-- what Redis holds under the keys of the metrics, the last write first
abbrev pub Baselines : Type 0 → Type 0
Baselines R = List (String × Baseline R)

module _ {R : Type 0} where
  -- `get` of the key of a metric
  unfoldable pub baseline_of : String → Baselines R → Option (Baseline R)
  baseline_of metric [] = none
  baseline_of metric ((m, b) ∷ rest) = if str_eq m metric then some b else baseline_of metric rest

module _ {R : Type 0} ⦃F : Floats R⦄ where
  -- `abs(x)`
  unfoldable pub fabs : R → R
  fabs x = if flt x (of_ℕ 0) then F.neg x else x

  -- the state that `observe` starts from
  unfoldable pub starting : R → Option (Baseline R) → Baseline R
  starting value none = record { mean = value; var = of_ℕ 0; n = 0 }
  starting value (some b) = b

  -- `z`
  unfoldable pub z_of : R → Baseline R → R
  z_of value b =
      let std = F.sqrt b.var in if flt std (dec 1 9) then of_ℕ 0 else fdiv (fsub value b.mean) std

  -- `n >= self.min_samples and abs(z) >= self.z_threshold`
  unfoldable pub is_anomalous : Settings R → R → ℕ → Bool
  unfolding fabs
  is_anomalous c z n = leb c.anomaly_min_samples n && not (flt (fabs z) c.anomaly_zscore_threshold)

  -- 1.0 is the literal with three decimals, to which the score is rounded
  unfoldable pub anomaly_score : Settings R → R → R
  unfolding fabs
  anomaly_score c z =
      let over = fsub (fabs z) c.anomaly_zscore_threshold in
      let score = fsub (of_ℕ 1) (F.exp (fdiv (F.neg (fmul over over)) (of_ℕ 8))) in
      round (fmin (dec 1000 3) (fadd (dec 5 1) (fmul (dec 5 1) score))) 3

  unfoldable pub result : Settings R → String → R → R → Baseline R → AnomalyResult R
  unfolding anomaly_score
  result c metric value z b = record {
    metric = metric;
    value = round value 3;
    baseline_mean = round b.mean 3;
    baseline_std = round (F.sqrt b.var) 3;
    z_score = round z 2;
    anomaly_score = anomaly_score c z;
    anomaly_reason = fmt (
        metric
        ∷ " = "
        ∷ fixed 1 value
        ∷ " is "
        ∷ fixed 1 (fabs z)
        ∷ "σ "
        ∷ (if flt (of_ℕ 0) z then "above" else "below")
        ∷ " the rolling baseline of "
        ∷ fixed 1 b.mean
        ∷ " ± "
        ∷ fixed 1 (F.sqrt b.var)
        ∷ " (n="
        ∷ str b.n
        ∷ ")"
        ∷ []);
    samples = b.n;
  }

  -- `eff_alpha`, smaller for an extreme point
  unfoldable pub eff_alpha : Settings R → R → R
  unfolding fabs
  eff_alpha c z =
      fdiv c.anomaly_ewma_alpha
        (fadd (of_ℕ 1) (fmax (of_ℕ 0) (fsub (fabs z) c.anomaly_zscore_threshold)))

  -- the updated baseline
  unfoldable pub moved : Settings R → R → R → Baseline R → Baseline R
  unfolding eff_alpha
  moved c value z b =
      let alpha = eff_alpha c z in
      let delta = fsub value b.mean in
      record {
        mean = fadd b.mean (fmul alpha delta);
        var = fmul (fsub (of_ℕ 1) alpha) (fadd b.var (fmul (fmul alpha delta) delta));
        n = b.n + 1;
      }

  -- `observe` on the state of its metric
  unfoldable pub observe_from :
      Settings R → String → R → Baseline R → Option (AnomalyResult R) × Baseline R
  unfolding is_anomalous moved result
  observe_from c metric value b =
      let z = z_of value b in
      (if is_anomalous c z b.n then some (result c metric value z b) else none, moved c value z b)

  -- `observe`
  unfoldable pub observe :
      Settings R → String → R → Baselines R → Option (AnomalyResult R) × Baselines R
  unfolding observe_from starting
  observe c metric value bs =
      let (found, b) = observe_from c metric value (starting value (baseline_of metric bs)) in
      (found, (metric, b) ∷ bs)

  -- `baseline`, its standard deviation beside the mean and the count
  unfoldable pub baseline : String → Baselines R → R × R × ℕ
  baseline metric bs = elim (baseline_of metric bs) [
    | none ↦ (of_ℕ 0, of_ℕ 0, 0)
    | some b ↦ (b.mean, F.sqrt b.var, b.n)
  ]
